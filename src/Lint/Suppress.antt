-- ===== src/Lint/Suppress.antt =====
-- The NOLINT comments of scripts/cpplint.py: `_error_suppressions`, with `ParseNolintSuppressions`,
-- `ResetNolintSuppressions` and `IsErrorSuppressedByNolint`.
pub mod Laws
use epiphany_bsp.Base.{
  ℕ, ◌+◌, Bool, false, ◌&&◌, ◌||◌, Option, none, some, List, [], ◌∷◌, ◌++◌, length, take, drop, ◌-◌,
  ◌==◌, if◌then◌else◌,
}
use epiphany_bsp.Base.Text.{Text, text, equal, member, starts_with, ends_with}
use epiphany_bsp.Regex.{
  Found, ◌⊙◌, group, opt, plus, none_of, one, lit, boundary, search_in, group_of, Regex, is_found,
}
use epiphany_bsp.Lint.Categories.{error_categories, legacy_error_categories}

-- a map from a category, `none` for all of them, to a set of line numbers
abbrev pub Suppressions : Type 0
Suppressions = List (Option Text × List ℕ)

abbrev pub same_key : Option Text → Option Text → Bool
same_key none none = Bool.true
same_key (some s) (some t) = equal s t
same_key _ _ = false

-- `_error_suppressions.setdefault(category, set()).add(line)`
unfoldable pub add_suppression : Option Text → ℕ → Suppressions → Suppressions
add_suppression key line [] = (key, line ∷ []) ∷ []
add_suppression key line ((k, ls) ∷ rest) =
    if same_key k key then (k, line ∷ ls) ∷ rest else (k, ls) ∷ add_suppression key line rest

-- `_error_suppressions.get(category, set())`
unfoldable pub suppressed_lines : Option Text → Suppressions → List ℕ
suppressed_lines key [] = []
suppressed_lines key ((k, ls) ∷ rest) = if same_key k key then ls else suppressed_lines key rest

abbrev pub has_line : ℕ → List ℕ → Bool
has_line n [] = false
has_line n (m ∷ ms) = m == n || has_line n ms

unfoldable pub is_error_suppressed_by_nolint : Text → ℕ → Suppressions → Bool
is_error_suppressed_by_nolint category linenum s =
    has_line linenum (suppressed_lines (some category) s)
    || has_line linenum (suppressed_lines none s)

unfoldable pub reset_nolint_suppressions : Suppressions → Suppressions
reset_nolint_suppressions s = []

-- r'\bNOLINT(NEXTLINE)?\b(\([^)]+\))?'
unfoldable pub nolint_pattern : Regex
nolint_pattern =
    boundary
    ⊙ lit "NOLINT"
    ⊙ opt (group 1 (lit "NEXTLINE"))
    ⊙ boundary
    ⊙ opt (group 2 (one b'(' ⊙ plus (none_of ")") ⊙ one b')'))

-- what a NOLINT comment asks for: a suppression, nothing, or the report of an unknown category
pub data Request : Type 0 where
  suppress : Option Text → Request
  nothing : Request
  unknown : Text → Request

-- the branches on a category whose parentheses are taken off
unfoldable pub request_named : Text → Request
request_named category =
    if member category error_categories
    then suppress (some category)
    else if member category legacy_error_categories
    then nothing
    else unknown category

-- the branches on `category`, the second group of the match; `category[1:-1]` drops both ends
unfoldable pub request_of : Option Text → Request
unfolding request_named
request_of none = suppress none
request_of (some category) =
    if equal category (text "(*)")
    then suppress none
    else if starts_with category (b'(' ∷ []) && ends_with category (b')' ∷ [])
    then request_named (take (length category - 2) (drop 1 category))
    else nothing

-- The line that the comment is about, and what it asks for; `none` where there is no comment.
unfoldable pub nolint_request : Text → ℕ → Option (ℕ × Request)
nolint_request raw_line linenum = elim (search_in nolint_pattern raw_line) [
  | none ↦ none
  | some m ↦ some (
    if is_found (group_of 1 m.groups) then linenum + 1 else linenum,
    request_of (group_of 2 m.groups),
  )
]

unfoldable pub apply_request : ℕ → Request → Suppressions → Suppressions
apply_request line (suppress key) s = add_suppression key line s
apply_request line nothing s = s
apply_request line (unknown c) s = s

-- The suppressions after `ParseNolintSuppressions`, and the category that it reports as unknown.
unfoldable pub parse_nolint : Text → ℕ → Suppressions → Suppressions
parse_nolint raw_line linenum s = elim (nolint_request raw_line linenum) [
  | none ↦ s
  | some (line, r) ↦ apply_request line r s
]

unfoldable pub unknown_category : Text → ℕ → Option Text
unknown_category raw_line linenum = elim (nolint_request raw_line linenum) [
  | none ↦ none
  | some (line, suppress key) ↦ none
  | some (line, nothing) ↦ none
  | some (line, unknown c) ↦ some c
]
