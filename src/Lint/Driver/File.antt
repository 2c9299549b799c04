-- ===== src/Lint/Driver/File.antt =====
-- `ProcessFile` of scripts/cpplint.py: a file is read, its line ends are noted, and its data is checked.
use epiphany_bsp.Base.{
  List, [], drop, if◌then◌else◌, none, not, some, suc, ℕ, ◌&&◌, ◌++◌, ◌==◌, ◌∷◌,
}
use epiphany_bsp.Base.Text.{Text, ends_with, equal, join_with, member, rfind, split, text}
use epiphany_bsp.Lint.Driver.Config.{Files, process_config_overrides, write}
use epiphany_bsp.Lint.Driver.Data.{process_file_data}
use epiphany_bsp.Lint.Report.{Globals}
use epiphany_bsp.Lint.State.{backup_filters, restore_filters, set_verbose_level}
use epiphany_bsp.Lint.Steps.{Action, branch, each, on_option, skip, ◌⨾◌}
use epiphany_bsp.Lint.Style.Width.{Settings}
use epiphany_bsp.Lint.Report.{error}

-- `s.rstrip('\r')`
unfoldable pub strip_returns : Text → Text
strip_returns [] = []
strip_returns (c ∷ s) = elim (strip_returns s) [
  | [] ↦ if c == 13 then [] else c ∷ []
  | d ∷ t ↦ c ∷ d ∷ t
]

-- the lines without the `\r` at the end, but for the last, and the numbers of those that had none and
-- that had one
unfoldable pub read_ends : ℕ → List Text → List Text × (List ℕ × List ℕ)
read_ends n [] = ([], ([], []))
read_ends n (line ∷ []) = (line ∷ [], ([], []))
read_ends n (line ∷ next ∷ lines) =
    let (rest, (lf_lines, crlf_lines)) = read_ends (suc n) (next ∷ lines) in
    if ends_with line (13 ∷ [])
    then (strip_returns line ∷ rest, (lf_lines, n ∷ crlf_lines))
    else (line ∷ rest, (n ∷ lf_lines, crlf_lines))

-- `filename[filename.rfind('.') + 1:]`
unfoldable pub extension_of : Text → Text
extension_of filename = elim (rfind filename b'.') [
  | none ↦ filename
  | some i ↦ drop (suc i) filename
]

-- mixed line ends: each line with `\r` is reported
unfoldable pub check_line_ends : Text → List ℕ → List ℕ → Action
check_line_ends filename lf_lines [] = skip
check_line_ends filename [] crlf_lines = skip
check_line_ends filename (lf ∷ lf_lines) (n ∷ crlf_lines) =
    each
      (λ linenum.
        error filename linenum (text "whitespace/newline") 1
          (text "Unexpected \\r (^M) found; better to use only \\n"))
      (n ∷ crlf_lines)

-- a file that has been read
unfoldable pub check_text : Settings → Files → Text → Text → Action
check_text settings files filename content =
    let file_extension = extension_of filename in
    let (lines, (lf_lines, crlf_lines)) = read_ends 1 (split content 10) in
    branch
      (not (equal filename (text "-")) && not (member file_extension settings.valid_extensions))
      (write (
        (text "Ignoring ")
        ++ (filename
            ++ ((text "; not a valid file name (")
                ++ (join_with (text ", ") settings.valid_extensions ++ (text ")\n"))))))
      (process_file_data settings files.read_lines filename file_extension lines error
        ⨾ check_line_ends filename lf_lines crlf_lines)
    ⨾ write ((text "Done processing ") ++ (filename ++ (text "\n")))

-- an exception that nothing catches leaves the filters as they are
unfoldable pub restore : Action
restore g = if g.aborted then g else record g { lint = restore_filters g.lint }

unfoldable pub enter_file : ℕ → Action
enter_file vlevel g = record g { lint = backup_filters (set_verbose_level vlevel g.lint).0 }

unfoldable pub read_file : Settings → Files → Text → Action
read_file settings files filename =
    on_option (files.read_text filename)
      (write ((text "Skipping input '") ++ (filename ++ (text "': Can't open for reading\n"))))
      (check_text settings files filename)

-- The line length that a configuration file sets stays set; the filters are restored on each way out.
unfoldable pub process_file : Files → Text → ℕ → Settings × Globals → Settings × Globals
process_file files filename vlevel (settings, g) =
    let (is_checked, (settings1, g1)) =
      process_config_overrides files filename (settings, enter_file vlevel g) in
    (settings1, restore (if is_checked then read_file settings1 files filename g1 else g1))

unfoldable pub process_files : Files → List Text → Settings × Globals → Settings × Globals
process_files files [] (settings, g) = (settings, g)
process_files files (filename ∷ filenames) (settings, g) =
    process_files files filenames (process_file files filename g.lint.verbose_level (settings, g))
