-- ===== src/Lint/Expression/Reverse.antt =====
-- The search backwards: `FindStartOfExpressionInLine` and `ReverseCloseExpression` of
-- scripts/cpplint.py.
use mathlib.Core.List.{reverse}
use epiphany_bsp.Base.{
  ℕ, zero, suc, ◌+◌, not, ◌||◌, none, some, List, [], ◌∷◌, length, take, drop, get_elem?, get_or,
  ◌==◌, if◌then◌else◌,
}
use epiphany_bsp.Base.Text.{Text}
use epiphany_bsp.Regex.{Regex, ◌⊙◌, space, lit, matches}
use epiphany_bsp.Lint.Expression.{
  Scan, found, failed, unclosed, Step, keep, skip, stop, is_opener, is_closer, pairs, drop_pending,
  first_is, after_operator, popped, need_stack, Place, may_close,
}

-- r'\s>=\s'
unfoldable pub greater_or_equal : Regex
greater_or_equal = space ⊙ lit ">=" ⊙ space

-- The branch at `>`. `before` is the line up to it, last character first, and `behind` the line
-- behind it.
unfoldable pub push_angle : Text → Text → List ℕ → Step
push_angle [] behind stack = keep (b'>' ∷ stack)
push_angle (d ∷ before) behind stack =
    if d == b'-' || (matches greater_or_equal (d ∷ b'>' ∷ behind) || after_operator (d ∷ before))
    then skip stack
    else keep (b'>' ∷ stack)

-- the branch at `<`
unfoldable pub pop_angle : Text → ℕ → List ℕ → Step
unfolding popped
pop_angle before i [] = if first_is b'<' before then skip [] else keep []
pop_angle before i (t ∷ stack) =
    if first_is b'<' before
    then skip (t ∷ stack)
    else if t == b'>'
    then popped (found i) stack
    else keep (t ∷ stack)

-- the branch at an opening bracket, on the stack without pending `>`
unfoldable pub open_bracket : ℕ → ℕ → List ℕ → Step
unfolding popped
open_bracket i c [] = stop failed
open_bracket i c (t ∷ stack) = if pairs c t then popped (found i) stack else stop failed

-- the body of the loop of `FindStartOfExpressionInLine`
unfoldable pub start_step : Text → Text → ℕ → ℕ → List ℕ → Step
unfolding drop_pending need_stack push_angle pop_angle open_bracket
start_step before behind i c stack =
    if is_closer c
    then keep (c ∷ stack)
    else if c == b'>'
    then push_angle before behind stack
    else if c == b'<'
    then pop_angle before i stack
    else if is_opener c
    then open_bracket i c (drop_pending b'>' stack)
    else if c == b';'
    then need_stack (drop_pending b'>' stack)
    else keep stack

-- The loop, on the characters up to `i`, last one first, and those behind it. A step back over two
-- characters can only be taken where there are two.
unfoldable pub scan_start : Text → Text → List ℕ → Scan
scan_start [] behind stack = unclosed stack
scan_start (c ∷ []) behind stack = elim (start_step [] behind 0 c stack) [
  | stop r ↦ r
  | keep s ↦ unclosed s
  | skip s ↦ unclosed s
]
scan_start (c ∷ d ∷ before) behind stack =
    elim (start_step (d ∷ before) behind (length (d ∷ before)) c stack) [
      | stop r ↦ r
      | keep s ↦ scan_start (d ∷ before) (c ∷ behind) s
      | skip s ↦ scan_start before (d ∷ c ∷ behind) s
    ]

-- `endpos` is given by the number of characters up to it, so that -1 is 0
unfoldable pub find_start_of_expression_in_line : Text → ℕ → List ℕ → Scan
unfolding scan_start
find_start_of_expression_in_line line count stack =
    scan_start (reverse (take count line)) (drop count line) stack

-- the loop of `ReverseCloseExpression` over the lines before line `linenum`
unfoldable pub reverse_close_from : List Text → Text → ℕ → List ℕ → Place
reverse_close_from elided line linenum [] = record { line = line; linenum = 0; pos = none }
reverse_close_from elided line zero (t ∷ stack) = record { line = line; linenum = 0; pos = none }
reverse_close_from elided line (suc linenum) (t ∷ stack) =
    let previous = get_or elided linenum [] in
    elim (find_start_of_expression_in_line previous (length previous) (t ∷ stack)) [
      | found p ↦ record { line = previous; linenum = linenum; pos = some p }
      | failed ↦ record { line = previous; linenum = 0; pos = none }
      | unclosed s ↦ reverse_close_from elided previous linenum s
    ]

unfoldable pub reverse_close_expression : List Text → ℕ → ℕ → Place
unfolding find_start_of_expression_in_line reverse_close_from
reverse_close_expression elided linenum pos =
    let line = get_or elided linenum [] in
    let none_found : Place = record { line = line; linenum = 0; pos = none } in
    if not (may_close (get_elem? line pos))
    then none_found
    else elim (find_start_of_expression_in_line line (pos + 1) []) [
      | found p ↦ record { line = line; linenum = linenum; pos = some p }
      | failed ↦ none_found
      | unclosed s ↦ reverse_close_from elided line linenum s
    ]
