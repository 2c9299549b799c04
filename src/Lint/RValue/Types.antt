-- ===== src/Lint/RValue/Types.antt =====
-- `IsRValueType` of scripts/cpplint.py.
use epiphany_bsp.Base.{
  Bool, List, Option, drop, false, if◌then◌else◌, length, none, not, some, suc, take, true, zero, ℕ,
  ◌+◌, ◌-◌, ◌||◌,
}
use epiphany_bsp.Base.Text.{Text, equal, member, text}
use epiphany_bsp.Lint.Block.{is_block_info}
use epiphany_bsp.Lint.Nesting.{NestingState}
use epiphany_bsp.Lint.RValue.Symbols.{
  has_statement, in_for_head, is_decltype, is_template_parameter_list, match_symbol, type_words,
}
use epiphany_bsp.Lint.Steps.{line_at}
use epiphany_bsp.Regex.{Found, group_text, match, matches, occurs, start}
use epiphany_bsp.Regex.Compile.{re}

-- what the code before an opening parenthesis says: an answer, or the column to ask about again
pub data Opened : Type 0 where
  answer : Bool → Opened
  again : ℕ → Opened

unfoldable pub is_implicit_constructor : Text → Bool
is_implicit_constructor prefix = elim (match (re "\\s*(\\w+)\\((?:const\\s+)?(\\w+)") prefix) [
  | none ↦ false
  | some m ↦ equal (group_text 1 m) (group_text 2 m)
]

unfoldable pub before_parenthesis : Text → Text → NestingState → Opened
before_parenthesis before_text prefix nesting_state =
    if occurs (re "(?:\\]|\\bfor|\\bsizeof|\\boperator\\s*\\S+\\s*)\\s*$") before_text
    then answer true
    else if occurs (re "(?:\\bif|\\bwhile|[-+=%^(<!?:,&*]\\s*)$") before_text
    then answer false
    else elim (match (re "^(.*\\S.*)\\s+\\w(?:\\w|::)*(?:<[^<>]*>)?\\s*$") before_text) [
      | none ↦ answer (elim nesting_state.previous_stack_top [
        | none ↦ true
        | some block ↦ not (is_block_info block)
      ])
      | some func ↦
          if occurs (re "\\b(?:explicit|inline)$") (group_text 1 func)
            || is_implicit_constructor prefix
          then answer true
          else again (length (group_text 1 func))
    ]

-- what the symbol before the type says
unfoldable pub at_symbol : List Text → NestingState → Text → ℕ × Found → Opened
at_symbol elided nesting_state prefix (start, m) =
    let before = group_text 1 m in
    let symbol = group_text 2 m in
    if equal symbol (text "}")
    then answer true
    else if equal symbol (text ";")
    then answer (not (in_for_head elided start before))
    else if equal symbol (text "{")
    then answer (has_statement elided start (length before))
    else if equal symbol (text "(")
    then before_parenthesis before prefix nesting_state
    else if equal symbol (text ">")
    then answer (is_template_parameter_list elided start (length before))
    else answer false

-- one call, but for the one that it may end in
unfoldable pub rvalue_step : List Text → List Text → NestingState → ℕ → ℕ → Opened
rvalue_step typenames elided nesting_state linenum column =
    let prefix = take column (line_at elided linenum) in
    elim (match (re "^(.*)(\\b\\w+|[>*)&])\\s*$") prefix) [
      | none ↦ answer false
      | some m ↦
          let last = group_text 2 m in
          if matches (re "&&\\s*(?:[>,]|\\.\\.\\.)") (drop column (line_at elided linenum))
          then answer true
          else if member last typenames || member last type_words
          then answer true
          else if equal last (text ")")
          then answer (is_decltype elided linenum (length (group_text 1 m) + length last - 1))
          else if occurs
              (re
                "\\b(?:const_cast\\s*<|static_cast\\s*<|dynamic_cast\\s*<|reinterpret_cast\\s*<|\\w+\\s)\\s*$")
              (group_text 1 m)
          then answer true
          else elim (match_symbol elided linenum (group_text 1 m)) [
            | none ↦ answer true
            | some symbol ↦ at_symbol elided nesting_state prefix symbol
          ]
    ]

-- The call that a call may end in need not be about less of the line, since the column is that of
-- another one. `none` is for a chain of calls that the interpreter stops, as it does with about a
-- thousand of them.
unfoldable pub is_rvalue_type : ℕ → List Text → List Text → NestingState → ℕ → ℕ → Option Bool
is_rvalue_type zero typenames elided nesting_state linenum column = none
is_rvalue_type (suc depth) typenames elided nesting_state linenum column =
    elim (rvalue_step typenames elided nesting_state linenum column) [
      | answer b ↦ some b
      | again next ↦ is_rvalue_type depth typenames elided nesting_state linenum next
    ]
