-- ===== src/Lint/Report/Laws.antt =====
-- Which findings are printed, and what a printed finding changes.
use mathlib.Core.List.{append-nil, append_assoc}
use epiphany_bsp.Base.{
  ℕ, ◌+◌, ◌≡◌, refl, ap, ◌∙◌, inl, inr, Bool, true, false, not, ◌&&◌, Option, none, some, List, [],
  ◌∷◌, ◌++◌, All, arith, length, length-append, drop, ltb, if◌then◌else◌, Bool-cases,
}
use epiphany_bsp.Base.Text.{Text, starts_with}
use epiphany_bsp.Lint.State.{is_signed, increment_error_count}
use epiphany_bsp.Lint.State.Laws.{IsSigned}
use epiphany_bsp.Lint.Suppress.{is_error_suppressed_by_nolint}
use epiphany_bsp.Lint.Report.{
  Globals, apply_filter, apply_filters, should_print_error, error_line, log_error, error,
}

-- the last filter whose text, its sign taken off, begins the category's name
abbrev pub last_about : Text → List Text → Option Text
last_about category [] = none
last_about category (f ∷ fs) = elim (last_about category fs) [
  | some g ↦ some g
  | none ↦ if starts_with category (drop 1 f) then some f else none
]

-- a category is off if the last filter about it says `-`; with no such filter it is as before
abbrev pub is_off : Bool → Option Text → Bool
is_off before none = before
is_off before (some f) = starts_with f (b'-' ∷ [])

is_off-apply_filter :
    (category f : Text) (b : Bool)
    → IsSigned f
    → apply_filter category f b
      ≡ some (if starts_with category (drop 1 f) then starts_with f (b'-' ∷ []) else b)
unfolding apply_filter is_signed
is_off-apply_filter category f b h = ground arith

apply_filters-last_about :
    (category : Text) (fs : List Text) (b : Bool)
    → All IsSigned fs
    → apply_filters category fs b ≡ some (is_off b (last_about category fs))
unfolding apply_filters
apply_filters-last_about category [] b h = refl
apply_filters-last_about category (f ∷ fs) b h = ground (
  arith,
  is_off-apply_filter category f b h.0,
  apply_filters-last_about category fs true h.1,
  apply_filters-last_about category fs false h.1,
)

-- Where every filter has a sign, the assertion does not fail, and an error is printed exactly if no
-- NOLINT comment suppresses it, its confidence is not below the verbosity level, and the last filter
-- about its category, if there is one, does not turn the category off.
pub should_print_error-last_about :
    (category : Text) (confidence linenum : ℕ) (g : Globals)
    → All IsSigned g.lint.filters
    → should_print_error category confidence linenum g
      ≡ some (
          not (is_error_suppressed_by_nolint category linenum g.suppressions)
          && (not (ltb confidence g.lint.verbose_level)
              && not (is_off false (last_about category g.lint.filters))))
unfolding should_print_error
should_print_error-last_about category confidence linenum g h =
    ground (arith, apply_filters-last_about category g.lint.filters false h)

-- A call of `Error`, and a run of such calls.
pub record Call : Type 0 where
  pub filename : Text
  pub linenum : ℕ
  pub category : Text
  pub confidence : ℕ
  pub message : Text

abbrev pub call : Call → Globals → Globals
call c = error c.filename c.linenum c.category c.confidence c.message

abbrev pub call_all : List Call → Globals → Globals
call_all [] g = g
call_all (c ∷ cs) g = call_all cs (call c g)

-- whether a call is printed, by what the globals say before the run
abbrev pub is_printed : Globals → Call → Bool
is_printed g c =
    not (is_error_suppressed_by_nolint c.category c.linenum g.suppressions)
    && (not (ltb c.confidence g.lint.verbose_level)
        && not (is_off false (last_about c.category g.lint.filters)))

abbrev pub printed_lines : Globals → List Call → List Text
printed_lines g [] = []
printed_lines g (c ∷ cs) =
    if is_printed g c
    then error_line g.lint.output_format c.filename c.linenum c.category c.confidence c.message
      ∷ printed_lines g cs
    else printed_lines g cs

-- What a call does not change, and what it prints and counts.
record Logged (lines : List Text) (g h : Globals) : Type 0 where
  suppressions : h.suppressions ≡ g.suppressions
  aborted : h.aborted ≡ g.aborted
  filters : h.lint.filters ≡ g.lint.filters
  verbose_level : h.lint.verbose_level ≡ g.lint.verbose_level
  output_format : h.lint.output_format ≡ g.lint.output_format
  stderr : h.stderr ≡ g.stderr ++ lines
  error_count : h.lint.error_count ≡ g.lint.error_count + length lines

call-Logged :
    (c : Call) (g : Globals)
    → g.aborted ≡ false
    → All IsSigned g.lint.filters
    → Logged (printed_lines g (c ∷ [])) g (call c g)
unfolding error log_error increment_error_count
call-Logged c g live signed =
    let fact = should_print_error-last_about c.category c.confidence c.linenum g signed in
    elim (Bool-cases (is_printed g c)) [
      | inl e ↦ ground (arith, fact, e)
      | inr e ↦ ground (arith, fact, e, append-nil g.stderr)
    ]

printed_lines-Logged :
    {lines : List Text} {g h : Globals} (cs : List Call)
    → Logged lines g h
    → printed_lines h cs ≡ printed_lines g cs
printed_lines-Logged [] l = refl
printed_lines-Logged (c ∷ cs) l =
    rw (l.suppressions, l.filters, l.verbose_level, l.output_format, printed_lines-Logged cs l)

Logged-trans :
    {xs ys : List Text} {g h k : Globals} → Logged xs g h → Logged ys h k → Logged (xs ++ ys) g k
Logged-trans {xs} {ys} {g} a b = record {
  suppressions = b.suppressions ∙ a.suppressions;
  aborted = b.aborted ∙ a.aborted;
  filters = b.filters ∙ a.filters;
  verbose_level = b.verbose_level ∙ a.verbose_level;
  output_format = b.output_format ∙ a.output_format;
  stderr = b.stderr ∙ (rw a.stderr (append_assoc g.stderr xs ys));
  error_count = omega (arith, a.error_count, b.error_count, length-append xs ys);
}

printed_lines-cons :
    (g : Globals) (c : Call) (cs : List Call)
    → printed_lines g (c ∷ []) ++ printed_lines g cs ≡ printed_lines g (c ∷ cs)
printed_lines-cons g c cs = ground arith

call_all-Logged :
    (cs : List Call) (g : Globals)
    → g.aborted ≡ false
    → All IsSigned g.lint.filters
    → Logged (printed_lines g cs) g (call_all cs g)
call_all-Logged [] g live signed = ground (arith, append-nil g.stderr)
call_all-Logged (c ∷ cs) g live signed =
    let first = call-Logged c g live signed in
    let rest = call_all-Logged cs (call c g) (first.aborted ∙ live) (rw first.filters signed) in
    rw (← printed_lines-cons g c cs)
      (Logged-trans first (rw (← printed_lines-Logged cs first) rest))

-- Where every filter has a sign, a run of calls of `Error` fails no assertion. It prints, in order,
-- the line of each call that no NOLINT comment suppresses, whose confidence is not below the
-- verbosity level and whose category is not turned off by the last filter about it; it counts as
-- many errors, and prints nothing else.
pub error-printed_lines :
    (cs : List Call) (g : Globals)
    → g.aborted ≡ false
    → All IsSigned g.lint.filters
    → ((call_all cs g).stderr ≡ g.stderr ++ printed_lines g cs)
      × ((call_all cs g).lint.error_count ≡ g.lint.error_count + length (printed_lines g cs))
      × ((call_all cs g).aborted ≡ false)
error-printed_lines cs g live signed =
    let all = call_all-Logged cs g live signed in (all.stderr, all.error_count, all.aborted ∙ live)

-- A single call that passes the three tests prints one line.
pub length-error :
    (c : Call) (g : Globals)
    → g.aborted ≡ false
    → All IsSigned g.lint.filters
    → is_printed g c ≡ true
    → length (call c g).stderr ≡ length g.stderr + 1
length-error c g live signed printed =
    let all = error-printed_lines (c ∷ []) g live signed in
    ap length all.0 ∙ length-append g.stderr (printed_lines g (c ∷ [])) ∙ ground (arith, printed)
