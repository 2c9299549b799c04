-- ===== src/Lint/State.antt =====
-- `_CppLintState` of scripts/cpplint.py: the linter's module-wide settings and error counts. A
-- verbosity level is a natural number.
pub mod Laws
use epiphany_bsp.Base.{
  ℕ, suc, ◌+◌, Bool, not, ◌||◌, Option, none, some, List, [], ◌∷◌, ◌++◌, map, if◌then◌else◌,
}
use epiphany_bsp.Base.Text.{Text, text, equal, starts_with, split, strip, decimal}

-- the values of `counting` that the code tells apart; any other string counts as `total`
pub data Counting : Type 0 where
  total toplevel detailed : Counting

-- likewise for `output_format`
pub data OutputFormat : Type 0 where
  emacs vs7 eclipse : OutputFormat

pub record CppLintState : Type 0 where
  pub verbose_level : ℕ
  pub error_count : ℕ
  pub filters : List Text
  pub filters_backup : List Text
  pub counting : Counting
  pub errors_by_category : List (Text × ℕ)
  pub output_format : OutputFormat

unfoldable pub default_filters : List Text
default_filters = text "-build/include_alpha" ∷ []

unfoldable pub initial : CppLintState
unfolding default_filters
initial = record {
  verbose_level = 1;
  error_count = 0;
  filters = default_filters;
  filters_backup = default_filters;
  counting = total;
  errors_by_category = [];
  output_format = emacs;
}

unfoldable pub set_output_format : OutputFormat → CppLintState → CppLintState
set_output_format f s = record s { output_format = f }

-- the new state, and the previous setting
unfoldable pub set_verbose_level : ℕ → CppLintState → CppLintState × ℕ
set_verbose_level level s = (record s { verbose_level = level }, s.verbose_level)

unfoldable pub set_counting_style : Counting → CppLintState → CppLintState
set_counting_style c s = record s { counting = c }

-- `filt.startswith('+') or filt.startswith('-')`
unfoldable pub is_signed : Text → Bool
is_signed f = starts_with f (b'+' ∷ []) || starts_with f (b'-' ∷ [])

-- the first loop of `AddFilters`: every nonblank item of the list is appended, stripped
unfoldable pub append_filters : List Text → List Text → List Text
append_filters [] fs = fs
append_filters (filt ∷ rest) fs = elim (strip filt) [
  | [] ↦ append_filters rest fs
  | c ∷ clean ↦ append_filters rest (fs ++ (c ∷ clean) ∷ [])
]

-- the second loop: the first filter that has no sign is the one that is reported
unfoldable pub first_unsigned : List Text → Option Text
first_unsigned [] = none
first_unsigned (f ∷ fs) = if is_signed f then first_unsigned fs else some f

unfoldable pub bad_filter : Text → Text
bad_filter f = text "Every filter in --filters must start with + or - (" ++ (f ++ text " does not)")

-- `AddFilters`: the new state, which is kept also where the call raises, and the `ValueError`.
unfoldable pub add_filters : Text → CppLintState → CppLintState × Option Text
add_filters filters s =
    let fs = append_filters (split filters b',') s.filters in
    (
      record s { filters = fs },
      elim (first_unsigned fs) [ none ↦ none | some f ↦ some (bad_filter f) ],
    )

unfoldable pub set_filters : Text → CppLintState → CppLintState × Option Text
set_filters filters s = add_filters filters (record s { filters = default_filters })

unfoldable pub backup_filters : CppLintState → CppLintState
backup_filters s = record s { filters_backup = s.filters }

unfoldable pub restore_filters : CppLintState → CppLintState
restore_filters s = record s { filters = s.filters_backup }

unfoldable pub reset_error_counts : CppLintState → CppLintState
reset_error_counts s = record s { error_count = 0; errors_by_category = [] }

-- `errors_by_category[category] += 1`, with a new entry behind the others where there is none
unfoldable pub bump : Text → List (Text × ℕ) → List (Text × ℕ)
bump category [] = (category, 1) ∷ []
bump category ((c, n) ∷ rest) =
    if equal c category then (c, n + 1) ∷ rest else (c, n) ∷ bump category rest

-- `category.split('/')[0]`
unfoldable pub top_level : Text → Text
top_level category = elim (split category b'/') [ [] ↦ [] | w ∷ ws ↦ w ]

-- the categories' counts after an error, by the style of counting
unfoldable pub count_category : Counting → Text → List (Text × ℕ) → List (Text × ℕ)
count_category total category errors = errors
count_category toplevel category errors = bump (top_level category) errors
count_category detailed category errors = bump category errors

unfoldable pub increment_error_count : Text → CppLintState → CppLintState
unfolding count_category
increment_error_count category s = record s {
  error_count = s.error_count + 1;
  errors_by_category = count_category s.counting category s.errors_by_category;
}

-- What `PrintErrorCounts` writes, line by line. (Python fixes no order of a dictionary's items; here
-- they come in the order of insertion.)
unfoldable pub category_line : Text × ℕ → Text
category_line (category, n) =
    text "Category '" ++ (category ++ (text "' errors found: " ++ (decimal n ++ text "\n")))

unfoldable pub print_error_counts : CppLintState → List Text
unfolding category_line
print_error_counts s =
    map category_line s.errors_by_category
    ++ (text "Total errors found: " ++ (decimal s.error_count ++ text "\n")) ∷ []
