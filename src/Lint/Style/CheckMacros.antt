-- ===== src/Lint/Style/CheckMacros.antt =====
-- `_CHECK_MACROS`, `_CHECK_REPLACEMENT`, `FindCheckMacro` and `CheckCheck` of scripts/cpplint.py.
use epiphany_bsp.Base.{
  Bool, List, Option, [], drop, if◌then◌else◌, length, none, not, some, suc, take, zero, ℕ, ◌&&◌,
  ◌++◌, ◌+◌, ◌-◌, ◌==◌, ◌||◌, ◌∷◌,
}
use epiphany_bsp.Base.Text.{Text, contains, equal, member, unicode_strip, text}
use epiphany_bsp.Lint.Cleanse.{CleansedLines}
use epiphany_bsp.Lint.Expression.{
  Place, close_expression, failed, find_end_of_expression_in_line, found, unclosed,
}
use epiphany_bsp.Lint.Report.{Handler}
use epiphany_bsp.Lint.Spacing.Punctuation.{concat_text, lines_between}
use epiphany_bsp.Lint.Steps.{Action, for_some, line_at, when}
use epiphany_bsp.Regex.{group_text, is_nil, match, matches}
use epiphany_bsp.Regex.Compile.{pattern, re}

unfoldable pub check_macros : List Text
check_macros =
    (text "DCHECK")
    ∷ (text "CHECK")
    ∷ (text "EXPECT_TRUE_M")
    ∷ (text "EXPECT_TRUE")
    ∷ (text "ASSERT_TRUE_M")
    ∷ (text "ASSERT_TRUE")
    ∷ (text "EXPECT_FALSE_M")
    ∷ (text "EXPECT_FALSE")
    ∷ (text "ASSERT_FALSE_M")
    ∷ (text "ASSERT_FALSE")
    ∷ []

-- a comparison's name, and that of its negation
unfoldable pub comparison : Text → Text
comparison operator =
    if equal operator (text "==")
    then (text "EQ")
    else if equal operator (text "!=")
    then (text "NE")
    else if equal operator (text ">=")
    then (text "GE")
    else if equal operator (text ">")
    then (text "GT")
    else if equal operator (text "<=")
    then (text "LE")
    else (text "LT")

unfoldable pub inverse : Text → Text
inverse operator =
    if equal operator (text "==")
    then (text "NE")
    else if equal operator (text "!=")
    then (text "EQ")
    else if equal operator (text ">=")
    then (text "LT")
    else if equal operator (text ">")
    then (text "LE")
    else if equal operator (text "<=")
    then (text "GT")
    else (text "GE")

-- `_CHECK_REPLACEMENT[macro][operator]`
unfoldable pub check_replacement : Text → Text → Text
check_replacement macro operator =
    if equal macro (text "DCHECK")
    then (text "DCHECK_") ++ comparison operator
    else if equal macro (text "CHECK")
    then (text "CHECK_") ++ comparison operator
    else if equal macro (text "EXPECT_TRUE")
    then (text "EXPECT_") ++ comparison operator
    else if equal macro (text "ASSERT_TRUE")
    then (text "ASSERT_") ++ comparison operator
    else if equal macro (text "EXPECT_TRUE_M")
    then (text "EXPECT_") ++ (comparison operator ++ (text "_M"))
    else if equal macro (text "ASSERT_TRUE_M")
    then (text "ASSERT_") ++ (comparison operator ++ (text "_M"))
    else if equal macro (text "EXPECT_FALSE")
    then (text "EXPECT_") ++ inverse operator
    else if equal macro (text "ASSERT_FALSE")
    then (text "ASSERT_") ++ inverse operator
    else if equal macro (text "EXPECT_FALSE_M")
    then (text "EXPECT_") ++ (inverse operator ++ (text "_M"))
    else (text "ASSERT_") ++ (inverse operator ++ (text "_M"))

-- the first macro of the list that is called on the line, and where its parenthesis opens
unfoldable pub find_macro : List Text → Text → Option (Text × ℕ)
find_macro [] line = none
find_macro (macro ∷ macros) line =
    let others = find_macro macros line in
    if contains line macro
    then (elim (match (pattern ((text "^(.*\\b") ++ (macro ++ (text "\\s*)\\(")))) line) [
      | none ↦ others
      | some m ↦ some (macro, length (group_text 1 m))
    ])
    else others

unfoldable pub find_check_macro : Text → Option (Text × ℕ)
find_check_macro line = find_macro check_macros line

-- what stands between the parentheses, from the one at a position to where the call ends
unfoldable pub expression_between : List Text → ℕ → ℕ → Place → ℕ → Text
expression_between lines linenum start_pos end end_pos =
    if linenum == end.linenum
    then drop (start_pos + 1) (take (end_pos - 1) (line_at lines linenum))
    else drop (start_pos + 1) (line_at lines linenum)
      ++ (concat_text (lines_between lines (linenum + 1) end.linenum)
          ++ take (end_pos - 1) end.line)

-- A comparison's left side, its operator and its right side. `none` is for an early return, and for a
-- text that ends before an operator is found. Each round takes a character at least, so that the
-- length of the expression is enough fuel.
unfoldable pub split_comparison : ℕ → Text → Text → Option (Text × (Text × Text))
split_comparison zero lhs expression = none
split_comparison (suc fuel) lhs expression =
    elim (match (re "^\\s*(<<|<<=|>>|>>=|->\\*|->|&&|\\|\\||==|!=|>=|>|<=|<|\\()(.*)$")
      expression) [
        | none ↦ elim (match (re "^([^-=!<>()&|]+)(.*)$") expression) [
          | some m ↦ split_comparison fuel (lhs ++ group_text 1 m) (group_text 2 m)
          | none ↦ elim (match (re "^(\\s*\\S)(.*)$") expression) [
            | none ↦ none
            | some m ↦ split_comparison fuel (lhs ++ group_text 1 m) (group_text 2 m)
          ]
        ]
        | some m ↦
            let token = group_text 1 m in
            let rest = group_text 2 m in
            let further = split_comparison fuel (lhs ++ token) rest in
            let inner : Option (Text × (Text × Text)) =
              elim (find_end_of_expression_in_line rest 0 (b'(' ∷ [])) [
                | found i ↦ split_comparison fuel (lhs ++ b'(' ∷ take i rest) (drop i rest)
                | failed ↦ none
                | unclosed _ ↦ none
              ] in
            if equal token (text "(")
            then inner
            else if member token ((text "&&") ∷ (text "||") ∷ [])
            then none
            else if member token (
                (text "<<")
                ∷ (text "<<=")
                ∷ (text ">>")
                ∷ (text ">>=")
                ∷ (text "->*")
                ∷ (text "->")
                ∷ [])
            then further
            else some (lhs, (token, rest))
      ]

unfoldable pub is_constant : Text → Bool
is_constant s =
    matches (re "^([-+]?(\\d+|0[xX][0-9a-fA-F]+)[lLuU]{0,3}|\".*\"|\\'.*\\')$") (unicode_strip s)

unfoldable pub check_comparison : Text → Text → Text → ℕ → Handler → Action
check_comparison macro expression filename linenum error =
    for_some (split_comparison (length expression) [] expression) (λ (lhs, (operator, rhs)).
      when
        (not (is_nil lhs)
          && not (is_nil rhs)
          && not (contains rhs (text "&&") || contains rhs (text "||"))
          && (is_constant lhs || is_constant rhs))
        (error filename linenum (text "readability/check") 2 (
          (text "Consider using ")
          ++ (check_replacement macro operator
              ++ ((text " instead of ")
                  ++ (macro ++ ((text "(a ") ++ (operator ++ (text " b)")))))))))

unfoldable pub check_check : Text → CleansedLines → ℕ → Handler → Action
check_check filename clean_lines linenum error =
    let lines = clean_lines.elided in
    for_some (find_check_macro (line_at lines linenum)) (λ (macro, start_pos).
      let end : Place = close_expression lines linenum start_pos in
      for_some end.pos (λ end_pos. when (matches (re "\\s*;") (drop end_pos end.line)) (
        check_comparison macro (expression_between lines linenum start_pos end end_pos) filename
          linenum error)))
