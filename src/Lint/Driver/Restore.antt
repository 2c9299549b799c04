-- ===== src/Lint/Driver/Restore.antt =====
-- A file leaves the filters as it found them.
use mathlib.Core.List.{reverse}
use epiphany_bsp.Base.{
  ℕ, ◌≡◌, refl, ◌∙◌, true, false, Bool, Option, none, some, List, [], ◌∷◌, arith,
}
use epiphany_bsp.Base.Text.{Text, text, equal}
use epiphany_bsp.Lint.Categories.{error_categories}
use epiphany_bsp.Lint.State.{backup_filters, restore_filters, set_verbose_level, add_filters}
use epiphany_bsp.Lint.Report.{Globals}
use epiphany_bsp.Lint.Steps.{Action, ◌⨾◌, each, branch, on_option, crash}
use epiphany_bsp.Lint.Style.Width.{Settings}
use epiphany_bsp.Lint.Driver.Config.{
  Files, write, add_filter, process_config_overrides, config_overrides,
}
use epiphany_bsp.Lint.Driver.File.{
  check_line_ends, check_text, restore, enter_file, read_file, process_file,
}
use epiphany_bsp.Lint.Trace.Rules.{IsTraced, traced_rules}
use epiphany_bsp.Lint.Trace.Run.{process_file_data-Trace}
use epiphany_bsp.Lint.Trace.Effect.{Trace-Effect}

-- the action keeps the copy of the filters
record KeepsBackup (f : Action) : Type 0 where
  at : (g : Globals) → (f g).lint.filters_backup ≡ g.lint.filters_backup

IsTraced-KeepsBackup : (f : Action) → IsTraced f → KeepsBackup f
IsTraced-KeepsBackup f t = record { at = λ g. (Trace-Effect (t.at g)).prints.agrees.filters_backup }

write-KeepsBackup : (message : Text) → KeepsBackup (write message)
unfolding write
write-KeepsBackup message = record { at = λ g. ground arith }

add_filter-KeepsBackup : (filter : Text) → KeepsBackup (add_filter filter)
unfolding add_filter add_filters crash
add_filter-KeepsBackup filter = record { at = λ g. ground arith }

⨾-KeepsBackup : (f h : Action) → KeepsBackup f → KeepsBackup h → KeepsBackup (f ⨾ h)
unfolding ◌⨾◌
⨾-KeepsBackup f h kf kh = record { at = λ g. kh.at (f g) ∙ kf.at g }

branch-KeepsBackup :
    (b : Bool) (f h : Action) → KeepsBackup f → KeepsBackup h → KeepsBackup (branch b f h)
unfolding branch
branch-KeepsBackup true f h kf kh = record { at = kf.at }
branch-KeepsBackup false f h kf kh = record { at = kh.at }

module _ {ℓ} {A : Type ℓ} where
  on_option-KeepsBackup :
      (o : Option A) (f : Action) (h : A → Action)
      → KeepsBackup f
      → ((x : A) → KeepsBackup (h x))
      → KeepsBackup (on_option o f h)
  unfolding on_option
  on_option-KeepsBackup none f h kf kh = record { at = kf.at }
  on_option-KeepsBackup (some x) f h kf kh = record { at = (kh x).at }

  each-KeepsBackup :
      (f : A → Action) (xs : List A) → ((x : A) → KeepsBackup (f x)) → KeepsBackup (each f xs)
  unfolding each
  each-KeepsBackup f [] k = record { at = λ g. refl }
  each-KeepsBackup f (x ∷ xs) k = record {
    at = λ g. (each-KeepsBackup f xs k).at (f x g) ∙ (k x).at g;
  }

check_line_ends-IsTraced :
    (filename : Text) (lf_lines crlf_lines : List ℕ)
    → IsTraced (check_line_ends filename lf_lines crlf_lines)
unfolding check_line_ends text equal error_categories
check_line_ends-IsTraced filename lf_lines [] = search (traced_rules) depth 20
check_line_ends-IsTraced filename [] (n ∷ crlf_lines) = search (traced_rules) depth 20
check_line_ends-IsTraced filename (lf ∷ lf_lines) (n ∷ crlf_lines) = search (traced_rules) depth 20

read_file-KeepsBackup :
    (settings : Settings) (files : Files) (filename : Text)
    → KeepsBackup (read_file settings files filename)
unfolding read_file check_text
read_file-KeepsBackup settings files filename =
    on_option-KeepsBackup _ _ _ (write-KeepsBackup _) (λ content.
      ⨾-KeepsBackup _ _
        (branch-KeepsBackup _ _ _ (write-KeepsBackup _) (
          ⨾-KeepsBackup _ _
            (IsTraced-KeepsBackup _
              (record { at = process_file_data-Trace settings files.read_lines filename _ _ }))
            (IsTraced-KeepsBackup _ (check_line_ends-IsTraced filename _ _))))
        (write-KeepsBackup _))

overrides-KeepsBackup :
    (files : Files) (filename : Text) (settings : Settings) (g : Globals)
    → (process_config_overrides files filename (settings, g)).1.1.lint.filters_backup
      ≡ g.lint.filters_backup
unfolding process_config_overrides
overrides-KeepsBackup files filename settings g =
    let o = config_overrides files settings.file_system settings.line_length filename in
    let g1 : Globals = each write o.messages g in
    let said : g1.lint.filters_backup ≡ g.lint.filters_backup =
      (each-KeepsBackup write o.messages write-KeepsBackup).at g in
    ground
      (arith, said, (each-KeepsBackup add_filter (reverse o.filters) add_filter-KeepsBackup).at g1)

-- Whatever the configuration files say, and on each of the three ways out of `ProcessFile`, the filters
-- are in the end those that they were before, unless an exception has ended the run.
pub process_file-filters :
    (files : Files) (filename : Text) (vlevel : ℕ) (settings : Settings) (g : Globals)
    → (process_file files filename vlevel (settings, g)).1.aborted ≡ false
    → (process_file files filename vlevel (settings, g)).1.lint.filters ≡ g.lint.filters
unfolding process_file restore restore_filters enter_file backup_filters set_verbose_level
process_file-filters files filename vlevel settings g goes_on =
    let before : Globals = enter_file vlevel g in
    let overrides : Bool × (Settings × Globals) =
      process_config_overrides files filename (settings, before) in
    ground (
      arith,
      goes_on,
      overrides-KeepsBackup files filename settings before,
      (read_file-KeepsBackup overrides.1.0 files filename).at overrides.1.1,
    )
