-- ===== src/Lint/Report.antt =====
-- What the linter keeps for the whole module, and how a finding is reported: `_ShouldPrintError` and
-- `Error` of scripts/cpplint.py. A check is handed the function that it reports to, as in the source.
pub mod Laws
use epiphany_bsp.Base.{
  ℕ, Bool, true, false, Option, none, some, List, [], ◌∷◌, ◌++◌, drop, ltb, if◌then◌else◌,
}
use epiphany_bsp.Base.Text.{Text, text, starts_with, decimal}
use epiphany_bsp.Lint.State
use epiphany_bsp.Lint.State.{CppLintState, OutputFormat, emacs, vs7, eclipse, increment_error_count}
use epiphany_bsp.Lint.Suppress.{
  Suppressions, is_error_suppressed_by_nolint, parse_nolint, unknown_category,
  reset_nolint_suppressions,
}

-- The module's globals, and what has been written to `sys.stderr`. `aborted` is set where the
-- assertion in `_ShouldPrintError` fails, and nothing is reported from then on.
pub record Globals : Type 0 where
  pub lint : CppLintState
  pub suppressions : Suppressions
  pub stderr : List Text
  pub aborted : Bool

-- file name, line number, category, confidence and message
abbrev pub Handler : Type 0
Handler = Text → ℕ → Text → ℕ → Text → Globals → Globals

unfoldable pub initial : Globals
initial = record { lint = State.initial; suppressions = []; stderr = []; aborted = false }

-- One round of the loop over the filters, on `is_filtered`; `none` where the assertion fails.
unfoldable pub apply_filter : Text → Text → Bool → Option Bool
apply_filter category f is_filtered =
    if starts_with f (b'-' ∷ [])
    then (if starts_with category (drop 1 f) then some true else some is_filtered)
    else if starts_with f (b'+' ∷ [])
    then (if starts_with category (drop 1 f) then some false else some is_filtered)
    else none

unfoldable pub apply_filters : Text → List Text → Bool → Option Bool
apply_filters category [] is_filtered = some is_filtered
apply_filters category (f ∷ fs) is_filtered = elim (apply_filter category f is_filtered) [
  | none ↦ none
  | some b ↦ apply_filters category fs b
]

-- `none` where the assertion fails
unfoldable pub should_print_error : Text → ℕ → ℕ → Globals → Option Bool
should_print_error category confidence linenum g =
    if is_error_suppressed_by_nolint category linenum g.suppressions
    then some false
    else if ltb confidence g.lint.verbose_level
    then some false
    else elim (apply_filters category g.lint.filters false) [
      | none ↦ none
      | some true ↦ some false
      | some false ↦ some true
    ]

unfoldable pub place : OutputFormat → Text → ℕ → Text
place vs7 filename linenum = filename ++ (text "(" ++ (decimal linenum ++ text "):  "))
place eclipse filename linenum = filename ++ (text ":" ++ (decimal linenum ++ text ": warning: "))
place emacs filename linenum = filename ++ (text ":" ++ (decimal linenum ++ text ":  "))

unfoldable pub error_line : OutputFormat → Text → ℕ → Text → ℕ → Text → Text
unfolding place
error_line format filename linenum category confidence message =
    place format filename linenum
    ++ (message ++ (text "  [" ++ (category ++ (text "] [" ++ (decimal confidence ++ text "]\n")))))

-- the body of `Error` where `_ShouldPrintError` is true
unfoldable pub log_error : Handler
log_error filename linenum category confidence message g = record g {
  lint = increment_error_count category g.lint;
  stderr =
      g.stderr ++ error_line g.lint.output_format filename linenum category confidence message ∷ [];
}

unfoldable pub error : Handler
unfolding log_error
error filename linenum category confidence message g =
    if g.aborted then g else elim (should_print_error category confidence linenum g) [
      | none ↦ record g { aborted = true }
      | some true ↦ log_error filename linenum category confidence message g
      | some false ↦ g
    ]

-- `ParseNolintSuppressions`
unfoldable pub parse_nolint_suppressions : Text → Text → ℕ → Handler → Globals → Globals
parse_nolint_suppressions filename raw_line linenum report g =
    elim (unknown_category raw_line linenum) [
      | none ↦ record g { suppressions = parse_nolint raw_line linenum g.suppressions }
      | some category ↦
          report filename linenum (text "readability/nolint") 5
            (text "Unknown NOLINT error category: " ++ category) g
    ]

-- `ResetNolintSuppressions`
unfoldable pub reset_suppressions : Globals → Globals
reset_suppressions g = record g { suppressions = reset_nolint_suppressions g.suppressions }
