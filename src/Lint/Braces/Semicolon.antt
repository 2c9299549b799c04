-- ===== src/Lint/Braces/Semicolon.antt =====
-- `CheckTrailingSemicolon` of scripts/cpplint.py.
use epiphany_bsp.Base.{
  Bool, List, Option, [], drop, false, if◌then◌else◌, length, ltb, none, not, some, take, ℕ, ◌&&◌,
  ◌||◌, ◌∷◌,
}
use epiphany_bsp.Base.Text.{Text, member, rfind, text}
use epiphany_bsp.Lint.Braces.PreviousLine.{previous_line}
use epiphany_bsp.Lint.Cleanse.{CleansedLines}
use epiphany_bsp.Lint.Expression.{Place, close_expression}
use epiphany_bsp.Lint.Expression.Reverse.{reverse_close_expression}
use epiphany_bsp.Lint.Report.{Handler}
use epiphany_bsp.Lint.Steps.{Action, for_some, line_above, line_at, when}
use epiphany_bsp.Regex.{group_text, is_nil, match, matches, occurs, search_in}
use epiphany_bsp.Regex.Compile.{re}

unfoldable pub block_macros : List Text
block_macros =
    (text "TEST")
    ∷ (text "TEST_F")
    ∷ (text "MATCHER")
    ∷ (text "MATCHER_P")
    ∷ (text "TYPED_TEST")
    ∷ (text "EXCLUSIVE_LOCKS_REQUIRED")
    ∷ (text "SHARED_LOCKS_REQUIRED")
    ∷ (text "LOCKS_EXCLUDED")
    ∷ (text "INTERFACE_DEF")
    ∷ []

unfoldable pub is_exempt_prefix : Text → Bool
is_exempt_prefix line_prefix =
    elim (search_in (re "\\b([A-Z_]+)\\s*$") line_prefix) [
      | none ↦ false
      | some macro ↦ not (member (group_text 1 macro) block_macros)
    ]
    || elim (match (re "^(.*\\])\\s*$") line_prefix) [
      | none ↦ false
      | some func ↦ not (occurs (re "\\boperator\\s*\\[\\s*\\]") (group_text 1 func))
    ]
    || occurs (re "\\b(?:struct|union)\\s+alignas\\s*$") line_prefix
    || occurs (re "\\s+=\\s*$") line_prefix

-- what stands before the parenthesis rules a block out: an initializer, a macro, a lambda
unfoldable pub is_exempt : List Text → Place → Bool
is_exempt elided opening =
    elim opening.pos [ none ↦ false | some p ↦ is_exempt_prefix (take p opening.line) ]
    || (ltb 1 opening.linenum && occurs (re "\\]\\s*$") (line_above elided opening.linenum))

-- the brace behind `else` or `) const`, or one that begins a line behind the end of a statement
unfoldable pub other_brace : List Text → ℕ → Option ℕ
other_brace elided linenum =
    let line = line_at elided linenum in
    let prevline = previous_line elided linenum in
    elim (match (re "^(.*(?:else|\\)\\s*const)\\s*)\\{") line) [
      | some m ↦ some (length (group_text 1 m))
      | none ↦
          if not (is_nil prevline) && occurs (re "[;{}]\\s*$") prevline
          then (elim (match (re "^(\\s*)\\{") line) [
            | none ↦ none
            | some m ↦ some (length (group_text 1 m))
          ])
          else none
    ]

-- The brace that opens a block, if one is found. What the first pattern found holds a parenthesis.
unfoldable pub block_brace : List Text → ℕ → Option ℕ
block_brace elided linenum = elim (match (re "^(.*\\)\\s*)\\{") (line_at elided linenum)) [
  | none ↦ other_brace elided linenum
  | some m ↦ elim (rfind (group_text 1 m) b')') [
    | none ↦ some (length (group_text 1 m))
    | some closing ↦
        if is_exempt elided (reverse_close_expression elided linenum closing)
        then none
        else some (length (group_text 1 m))
  ]
]

unfoldable pub check_trailing_semicolon : Text → CleansedLines → ℕ → Handler → Action
check_trailing_semicolon filename clean_lines linenum error =
    for_some (block_brace clean_lines.elided linenum) (λ brace.
      let end : Place = close_expression clean_lines.elided linenum brace in
      for_some end.pos (λ endpos. when (matches (re "^\\s*;") (drop endpos end.line)) (
        error filename end.linenum (text "readability/braces") 4
          (text "You don't need a ; after a }"))))
