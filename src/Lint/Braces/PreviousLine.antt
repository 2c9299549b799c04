-- ===== src/Lint/Braces/PreviousLine.antt =====
-- `GetPreviousNonBlankLine` of scripts/cpplint.py, and a slice from an index that may be -1.
use epiphany_bsp.Base.{
  Bool, List, Option, [], drop, false, if◌then◌else◌, length, none, not, some, suc, true, zero, ℕ,
  ◌-◌,
}
use epiphany_bsp.Base.Text.{Text}
use epiphany_bsp.Lint.NamespaceIndent.{is_blank_line}
use epiphany_bsp.Lint.Steps.{line_at}

-- the last nonblank one of so many lines, and its number; `none` for `('', -1)`
unfoldable pub get_previous_non_blank_line : List Text → ℕ → Option (Text × ℕ)
get_previous_non_blank_line elided zero = none
get_previous_non_blank_line elided (suc i) =
    let further = get_previous_non_blank_line elided i in
    if is_blank_line (line_at elided i) then further else some (line_at elided i, i)

unfoldable pub previous_line : List Text → ℕ → Text
previous_line elided linenum = elim (get_previous_non_blank_line elided linenum) [
  | none ↦ []
  | some (line, _) ↦ line
]

-- `s[i:]`, which for the index -1 is the last character
unfoldable pub from_index : Text → Option ℕ → Text
from_index s none = drop (length s - 1) s
from_index s (some i) = drop i s

abbrev pub same_bool : Bool → Bool → Bool
same_bool true b = b
same_bool false b = not b
