-- ===== src/Tests/Reports.antt =====
-- Reports, filters, counts, NOLINT comments and function lengths.
use epiphany_bsp.Base.{
  ℕ, ◌+◌, ◌≡◌, refl, ◌↔◌, Bool, true, false, not, ◌&&◌, ◌||◌, Option, none, some, List, [], ◌∷◌,
  ◌++◌, All, length, arith, ltb, if◌then◌else◌,
}
use epiphany_bsp.Base.Text.{split, Text, text, starts_with, equal}
use epiphany_bsp.Regex.{search_in}
use epiphany_bsp.Lint.State
use epiphany_bsp.Lint.State.{
  CppLintState, detailed, add_filters, set_filters, set_counting_style, reset_error_counts,
  default_filters, is_signed,
}
use epiphany_bsp.Lint.State.Laws.{
  IsSigned, HasSign, items, add_filters-HasSign, increment_all, sum_counts, count_of, occurrences,
  increment_all-reset_error_counts,
}
use epiphany_bsp.Lint.Suppress.{
  Suppressions, is_error_suppressed_by_nolint, parse_nolint, nolint_request, nolint_pattern,
  request_of, suppress, Request,
}
use epiphany_bsp.Lint.Suppress.Laws.{is_named, is_error_suppressed_by_nolint-parse_nolint}
use epiphany_bsp.Lint.Report
use epiphany_bsp.Lint.Report.{Globals, error, should_print_error}
use epiphany_bsp.Lint.Report.Laws.{
  Call, call_all, is_off, last_about, printed_lines, should_print_error-last_about,
  error-printed_lines,
}
use epiphany_bsp.Lint.FunctionState.{FunctionState, check, trigger}
use epiphany_bsp.Lint.FunctionState.Level.{check-error}

abbrev settings : CppLintState
settings = record {
  verbose_level = 1;
  error_count = 0;
  filters = text "-whitespace" ∷ text "+whitespace/tab" ∷ [];
  filters_backup = [];
  counting = detailed;
  errors_by_category = [];
  output_format = State.emacs;
}

abbrev globals : Globals
globals = record { lint = settings; suppressions = []; stderr = []; aborted = false }

abbrev calls : List Call
calls =
    record {
      filename = text "a.c";
      linenum = 3;
      category = text "whitespace/tab";
      confidence = 1;
      message = text "Tab";
    }
    ∷ record {
      filename = text "a.c";
      linenum = 4;
      category = text "whitespace/indent";
      confidence = 3;
      message = text "x";
    }
    ∷ []

settings-IsSigned : All IsSigned settings.filters
unfolding is_signed text starts_with
settings-IsSigned = (refl, (refl, tt))

-- The second call is filtered out.
printed-calls : printed_lines globals calls ≡ text "a.c:3:  Tab  [whitespace/tab] [1]\n" ∷ []
unfolding text starts_with is_error_suppressed_by_nolint Report.error_line
    epiphany_bsp.Lint.Suppress.suppressed_lines epiphany_bsp.Base.Text.decimal
printed-calls = refl

error-printed_lines_example :
    ((call_all calls globals).stderr ≡ globals.stderr ++ printed_lines globals calls)
    × ((call_all calls globals).lint.error_count
        ≡ globals.lint.error_count + length (printed_lines globals calls))
    × ((call_all calls globals).aborted ≡ false)
error-printed_lines_example = error-printed_lines calls globals refl settings-IsSigned

should_print_error-last_about_example :
    should_print_error (text "whitespace/tab") 1 3 globals
    ≡ some (
        not (is_error_suppressed_by_nolint (text "whitespace/tab") 3 globals.suppressions)
        && (not (ltb 1 globals.lint.verbose_level)
            && not (is_off false (last_about (text "whitespace/tab") globals.lint.filters))))
should_print_error-last_about_example =
    should_print_error-last_about (text "whitespace/tab") 1 3 globals settings-IsSigned

add_filters-HasSign_example :
    let added = add_filters (text "+build, -legal,,") settings in
    let fs = settings.filters ++ items (split (text "+build, -legal,,") b',') in
    (added.0.filters ≡ fs) × ((added.1 ≡ none) ↔ All HasSign fs)
add_filters-HasSign_example = add_filters-HasSign (text "+build, -legal,,") settings

abbrev categories : List Text
categories = text "build/class" ∷ text "build/include" ∷ text "build/class" ∷ []

increment_all-reset_error_counts_example :
    let t = increment_all categories (reset_error_counts settings) in
    (t.error_count ≡ length categories)
    × (sum_counts t.errors_by_category ≡ t.error_count)
    × ((c : Text) → count_of c t.errors_by_category ≡ occurrences detailed c categories)
increment_all-reset_error_counts_example =
    increment_all-reset_error_counts categories settings (λ e. cc)

abbrev nolint_line : Text
nolint_line = text "x = 1;  // NOLINTNEXTLINE(build/class)"

nolint_request-line : nolint_request nolint_line 7 ≡ some (8, suppress (some (text "build/class")))
unfolding nolint_request nolint_pattern text search_in request_of starts_with equal
    epiphany_bsp.Base.Text.ends_with epiphany_bsp.Lint.Categories.error_categories
nolint_request-line = refl

is_error_suppressed_by_nolint-parse_nolint_example :
    is_error_suppressed_by_nolint (text "build/class") 8 (parse_nolint nolint_line 7 [])
    ≡ is_named (search_in nolint_pattern nolint_line) 7 (text "build/class") 8
      || is_error_suppressed_by_nolint (text "build/class") 8 []
is_error_suppressed_by_nolint-parse_nolint_example =
    is_error_suppressed_by_nolint-parse_nolint nolint_line 7 (text "build/class") 8 []

abbrev long_function : FunctionState
long_function = record {
  in_a_function = true;
  lines_in_function = 501;
  current_function = text "f()";
}

check-error_example :
    length (check error (text "a.c") 9 long_function globals).stderr
    ≡ length globals.stderr
      + (if ltb (trigger globals.lint.verbose_level long_function) long_function.lines_in_function
          then 1
          else 0)
unfolding epiphany_bsp.Lint.Suppress.suppressed_lines
check-error_example =
    check-error (text "a.c") 9 long_function globals refl settings-IsSigned (omega arith)
      (unfold is_error_suppressed_by_nolint in refl) (unfold text starts_with in refl)
