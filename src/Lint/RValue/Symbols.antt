-- ===== src/Lint/RValue/Symbols.antt =====
-- `IsDecltype`, `IsTemplateParameterList` and the parts of `IsRValueType` of scripts/cpplint.py that look
-- around an `&&`.
use epiphany_bsp.Base.{
  Bool, List, Option, [], false, if◌then◌else◌, length, none, some, suc, take, true, zero, ℕ, ◌++◌,
  ◌+◌, ◌-◌, ◌==◌, ◌∷◌,
}
use epiphany_bsp.Base.Text.{Text, text}
use epiphany_bsp.Lint.Expression.{Place}
use epiphany_bsp.Lint.Expression.Reverse.{reverse_close_expression}
use epiphany_bsp.Lint.Spacing.Punctuation.{concat_text, lines_between}
use epiphany_bsp.Lint.Steps.{line_at}
use epiphany_bsp.Regex.{Found, match, occurs, start}
use epiphany_bsp.Regex.Compile.{re}

unfoldable pub is_decltype : List Text → ℕ → ℕ → Bool
is_decltype elided linenum column =
    let start : Place = reverse_close_expression elided linenum column in
    elim start.pos [
      | none ↦ false
      | some start_col ↦ occurs (re "\\bdecltype\\s*$") (take start_col start.line)
    ]

unfoldable pub is_template_parameter_list : List Text → ℕ → ℕ → Bool
is_template_parameter_list elided linenum column =
    let start : Place = reverse_close_expression elided linenum column in
    elim start.pos [
      | none ↦ false
      | some startpos ↦
          occurs (re "\\btemplate\\s*$") (take startpos (line_at elided start.linenum))
    ]

unfoldable pub type_words : List Text
type_words =
    (text "char")
    ∷ (text "char16_t")
    ∷ (text "char32_t")
    ∷ (text "wchar_t")
    ∷ (text "bool")
    ∷ (text "short")
    ∷ (text "int")
    ∷ (text "long")
    ∷ (text "signed")
    ∷ (text "unsigned")
    ∷ (text "float")
    ∷ (text "double")
    ∷ (text "void")
    ∷ (text "auto")
    ∷ (text ">")
    ∷ (text "*")
    ∷ (text "&")
    ∷ []

-- The last symbol of a text or of the lines above it, with the number of its line; the first group is
-- what stands before it.
unfoldable pub match_symbol : List Text → ℕ → Text → Option (ℕ × Found)
match_symbol elided zero line = elim (match (re "^(.*)([^\\w\\s,])[\\w\\s,]*$") line) [
  | none ↦ none
  | some m ↦ some (0, m)
]
match_symbol elided (suc start) line =
    let above = match_symbol elided start (line_at elided start) in
    elim (match (re "^(.*)([^\\w\\s,])[\\w\\s,]*$") line) [
      | none ↦ above
      | some m ↦ some (suc start, m)
    ]

-- behind `;`: the head of a `for` is open, in the text or the five lines above
unfoldable pub in_for_head : List Text → ℕ → Text → Bool
in_for_head elided start before =
    occurs (re "for\\s*\\([^{};]*$")
      (concat_text (lines_between elided (start - 6 + 1) start) ++ before)

-- behind `{`: a semicolon comes before the braces are closed
unfoldable pub scan_block : ℕ → Text → Bool
scan_block depth [] = false
scan_block depth (c ∷ s) =
    let deeper = scan_block (suc depth) s in
    let closed = scan_block (depth - 1) s in
    let next = scan_block depth s in
    if c == b';'
    then true
    else if c == b'{'
    then deeper
    else if c == b'}'
    then (if depth == 1 then false else closed)
    else next

unfoldable pub has_statement : List Text → ℕ → ℕ → Bool
has_statement elided start column = scan_block 1 (
    take (column + 1) (line_at elided start)
    ++ concat_text (lines_between elided (start + 1) (length elided)))
