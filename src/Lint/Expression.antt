-- ===== src/Lint/Expression.antt =====
-- Matching brackets over the lines of a file: `FindEndOfExpressionInLine`, `CloseExpression`,
-- `FindStartOfExpressionInLine` and `ReverseCloseExpression` of scripts/cpplint.py. A stack has its
-- top first. A position past the end of its line, at which Python raises an IndexError, is answered
-- as one that holds no bracket.
pub mod Bounds
pub mod Balanced
pub mod Reverse
use mathlib.Core.List.{reverse}
use epiphany_bsp.Base.{
  ℕ, zero, suc, ◌+◌, ◌-◌, Bool, true, false, not, ◌&&◌, ◌||◌, Option, none, some, List, [], ◌∷◌,
  ◌++◌, length, take, drop, get_elem?, get_or, ltb, ◌==◌, if◌then◌else◌,
}
use epiphany_bsp.Base.Text.{Text}
use epiphany_bsp.Regex.{
  Regex, ◌⊙◌, boundary, lit, one, one_of, space, spaces, line_end, line_start, matches, occurs,
  is_nil,
}

-- `(index, None)`, `(-1, None)` and `(-1, stack)`
pub data Scan : Type 0 where
  found : ℕ → Scan
  failed : Scan
  unclosed : List ℕ → Scan

-- One character's part: the loop goes on with a stack, at the next character or at the one behind
-- it, or it returns.
pub data Step : Type 0 where
  keep skip : List ℕ → Step
  stop : Scan → Step

abbrev pub is_opener : ℕ → Bool
is_opener c = c == b'(' || c == b'[' || c == b'{'

abbrev pub is_closer : ℕ → Bool
is_closer c = c == b')' || c == b']' || c == b'}'

abbrev pub pairs : ℕ → ℕ → Bool
pairs o c = (o == b'(' && c == b')') || (o == b'[' && c == b']') || (o == b'{' && c == b'}')

-- `while stack and stack[-1] == c: stack.pop()`
unfoldable pub drop_pending : ℕ → List ℕ → List ℕ
drop_pending c [] = []
drop_pending c (t ∷ stack) = if t == c then drop_pending c stack else t ∷ stack

abbrev pub first_is : ℕ → Text → Bool
first_is c [] = false
first_is c (d ∷ s) = d == c

-- r'\boperator\s*$', searched in a prefix of the line that is given last character first
unfoldable pub operator_before : Regex
operator_before = boundary ⊙ lit "operator" ⊙ spaces ⊙ line_end

unfoldable pub after_operator : Text → Bool
unfolding operator_before
after_operator before = occurs operator_before (reverse before)

abbrev pub tail : Text → Text
tail [] = []
tail (c ∷ s) = s

-- a pop that ends the expression if the stack is then empty
unfoldable pub popped : Scan → List ℕ → Step
popped r [] = stop r
popped r (t ∷ stack) = keep (t ∷ stack)

-- `if not stack: return (-1, None)`, after the pending angle brackets are removed
unfoldable pub need_stack : List ℕ → Step
need_stack [] = stop failed
need_stack (t ∷ stack) = keep (t ∷ stack)

-- the branch at a closing bracket, on the stack without pending `<`
unfoldable pub close_bracket : ℕ → ℕ → List ℕ → Step
unfolding popped
close_bracket i c [] = stop failed
close_bracket i c (t ∷ stack) = if pairs t c then popped (found (i + 1)) stack else stop failed

-- the branch at `<`
unfoldable pub open_angle : Text → List ℕ → Step
unfolding popped
open_angle before [] =
    if first_is b'<' before
    then keep []
    else if not (is_nil before) && after_operator before
    then keep []
    else keep (b'<' ∷ [])
open_angle before (t ∷ stack) =
    if first_is b'<' before
    then (if t == b'<' then popped failed stack else keep (t ∷ stack))
    else if not (is_nil before) && after_operator before
    then keep (t ∷ stack)
    else keep (b'<' ∷ t ∷ stack)

-- the branch at `>`
unfoldable pub close_angle : Text → ℕ → List ℕ → Step
unfolding popped
close_angle before i [] = keep []
close_angle before i (t ∷ stack) =
    if not (is_nil before) && (first_is b'-' before || after_operator (tail before))
    then keep (t ∷ stack)
    else if t == b'<'
    then popped (found (i + 1)) stack
    else keep (t ∷ stack)

-- the body of the loop of `FindEndOfExpressionInLine`
unfoldable pub end_step : Text → ℕ → ℕ → List ℕ → Step
end_step before i c stack =
    if is_opener c
    then keep (c ∷ stack)
    else if c == b'<'
    then open_angle before stack
    else if is_closer c
    then close_bracket i c (drop_pending b'<' stack)
    else if c == b'>'
    then close_angle before i stack
    else if c == b';'
    then need_stack (drop_pending b'<' stack)
    else keep stack

-- the loop, on the characters before `i`, last one first, and those from `i` on
unfoldable pub scan_end : Text → Text → ℕ → List ℕ → Scan
scan_end before [] i stack = unclosed stack
scan_end before (c ∷ rest) i stack = elim (end_step before i c stack) [
  | stop r ↦ r
  | keep s ↦ scan_end (c ∷ before) rest (i + 1) s
  | skip s ↦ scan_end (c ∷ before) rest (i + 1) s
]

unfoldable pub find_end_of_expression_in_line : Text → ℕ → List ℕ → Scan
unfolding scan_end
find_end_of_expression_in_line line startpos stack =
    scan_end (reverse (take startpos line)) (drop startpos line) startpos stack

-- a line, its number and a position in it, with `none` for -1
pub record Place : Type 0 where
  pub line : Text
  pub linenum : ℕ
  pub pos : Option ℕ

-- the loop of `CloseExpression` over the lines behind line `linenum`; `last` is the number of lines
unfoldable pub close_from : List Text → ℕ → Text → ℕ → List ℕ → Place
close_from rest last line linenum [] = record { line = line; linenum = last; pos = none }
close_from [] last line linenum (t ∷ stack) = record { line = line; linenum = last; pos = none }
close_from (next ∷ rest) last line linenum (t ∷ stack) =
    elim (find_end_of_expression_in_line next 0 (t ∷ stack)) [
      | found p ↦ record { line = next; linenum = linenum + 1; pos = some p }
      | failed ↦ record { line = next; linenum = last; pos = none }
      | unclosed s ↦ close_from rest last next (linenum + 1) s
    ]

-- r'<[<=]'
unfoldable pub shift_or_less : Regex
shift_or_less = one b'<' ⊙ one_of "<="

abbrev pub may_open : Option ℕ → Bool
may_open none = false
may_open (some c) = is_opener c || c == b'<'

abbrev pub may_close : Option ℕ → Bool
may_close none = false
may_close (some c) = is_closer c || c == b'>'

unfoldable pub close_expression : List Text → ℕ → ℕ → Place
close_expression elided linenum pos =
    let line = get_or elided linenum [] in
    let last = length elided in
    let none_found : Place = record { line = line; linenum = last; pos = none } in
    if not (may_open (get_elem? line pos)) || matches shift_or_less (drop pos line)
    then none_found
    else elim (find_end_of_expression_in_line line pos []) [
      | found p ↦ record { line = line; linenum = linenum; pos = some p }
      | failed ↦ none_found
      | unclosed s ↦ close_from (drop (linenum + 1) elided) last line linenum s
    ]
