-- ===== src/Lint/Casts/References.antt =====
-- `IsDerivedFunction`, `IsOutOfLineMethodDefinition`, `IsInitializerList` and
-- `CheckForNonConstReference` of scripts/cpplint.py.
use epiphany_bsp.Base.{
  Bool, List, Option, drop, false, if◌then◌else◌, leb, length, ltb, map, none, not, some, suc, true,
  zero, ℕ, ◌&&◌, ◌++◌, ◌+◌, ◌-◌, ◌||◌,
}
use epiphany_bsp.Base.Text.{Text, contains, unicode_lstrip, rfind, unicode_strip, text}
use epiphany_bsp.Lint.Block.{Block, is_class, is_namespace}
use epiphany_bsp.Lint.Cleanse.{CleansedLines}
use epiphany_bsp.Lint.Expression.{Place, close_expression}
use epiphany_bsp.Lint.Expression.Reverse.{reverse_close_expression}
use epiphany_bsp.Lint.Nesting.{NestingState}
use epiphany_bsp.Lint.Report.{Handler}
use epiphany_bsp.Lint.Spacing.Punctuation.{concat_text, lines_between}
use epiphany_bsp.Lint.Steps.{Action, each, find_all, line_at, when}
use epiphany_bsp.Regex.{
  Found, Regex, group_text, is_found, match, matches, occurs, replace_all, search_in,
}
use epiphany_bsp.Regex.Compile.{pattern, re}

-- the nearest of so many lines, from a number up, in which a declaration opens its parameters
unfoldable pub declaration_line : List Text → ℕ → ℕ → Option (ℕ × Found)
declaration_line elided i zero = none
declaration_line elided i (suc n) =
    let above = declaration_line elided (i - 1) n in
    elim (match (re "^([^()]*\\w+)\\(") (line_at elided i)) [ none ↦ above | some m ↦ some (i, m) ]

-- `xrange(linenum, max(-1, linenum - 10), -1)` has so many numbers
abbrev ten_lines : ℕ → ℕ
ten_lines linenum = if ltb linenum 10 then linenum + 1 else 10

unfoldable pub is_derived_function : List Text → ℕ → Bool
is_derived_function elided linenum = elim (declaration_line elided linenum (ten_lines linenum)) [
  | none ↦ false
  | some (i, m) ↦
      let end : Place = close_expression elided i (length (group_text 1 m)) in
      elim end.pos [
        | none ↦ false
        | some closing_paren ↦ occurs (re "\\boverride\\b") (drop closing_paren end.line)
      ]
]

unfoldable pub is_out_of_line_method_definition : List Text → ℕ → Bool
is_out_of_line_method_definition elided linenum =
    elim (declaration_line elided linenum (ten_lines linenum)) [
      | none ↦ false
      | some (i, _) ↦ matches (re "^[^()]*\\w+::\\w+\\(") (line_at elided i)
    ]

-- what a line says, `none` where it says nothing
unfoldable pub initializer_line : Text → Option Bool
initializer_line line =
    if occurs (re "\\s:\\s*\\w+[({]") line || occurs (re "\\}\\s*,\\s*$") line
    then some true
    else if occurs (re "[{};]\\s*$") line
    then some false
    else none

unfoldable pub is_initializer_above : List Text → ℕ → Bool
is_initializer_above elided zero = false
is_initializer_above elided (suc zero) = false
is_initializer_above elided (suc (suc i)) =
    let above = is_initializer_above elided (suc i) in
    elim (initializer_line (line_at elided (suc (suc i)))) [ none ↦ above | some b ↦ b ]

unfoldable pub without_body : Text → Text
without_body line = elim (match (re "^(.*)\\{\\s*$") line) [ none ↦ line | some m ↦ group_text 1 m ]

unfoldable pub is_initializer_list : List Text → ℕ → Bool
is_initializer_list elided linenum =
    if leb linenum 1
    then false
    else elim (initializer_line (without_body (line_at elided linenum))) [
      | none ↦ is_initializer_above elided (linenum - 1)
      | some b ↦ b
    ]

-- the part of a type's name on the line above
unfoldable pub previous_part : Text → Text → Option Found
previous_part line above =
    if matches (re "\\s*::(?:[\\w<>]|::)+\\s*&\\s*\\S") line
    then search_in (re "\\b((?:const\\s*)?(?:[\\w<>]|::)+[\\w<>])\\s*$") above
    else if matches (re "\\s*[a-zA-Z_]([\\w<>]|::)+\\s*&\\s*\\S") line
    then search_in (re "\\b((?:const\\s*)?(?:[\\w<>]|::)+::)\\s*$") above
    else none

-- the line, with what its last type says on lines above
unfoldable pub reference_line : List Text → ℕ → Text
reference_line elided linenum =
    let line = line_at elided linenum in
    if leb linenum 1 then line else elim (previous_part line (line_at elided (linenum - 1))) [
      | some m ↦ group_text 1 m ++ unicode_lstrip line
      | none ↦ elim (rfind line b'>') [
        | none ↦ line
        | some endpos ↦
            let start : Place = reverse_close_expression elided linenum endpos in
            if is_found start.pos && ltb start.linenum linenum
            then concat_text (map unicode_strip (lines_between elided start.linenum (linenum + 1)))
            else line
      ]
    ]

-- an initializer list begins on one of so many lines, from a number up, that go on
unfoldable pub list_begins : List Text → ℕ → ℕ → Bool
list_begins elided i zero = false
list_begins elided i (suc n) =
    let above = list_begins elided (i - 1) n in
    let line = line_at elided i in
    if not (occurs (re "[),]\\s*$") line)
    then false
    else if matches (re "^\\s*:\\s+\\S") line
    then true
    else above

unfoldable pub whitelisted : Text → Bool
whitelisted line =
    occurs (re "(?:[sS]wap(?:<\\w:+>)?|operator\\s*[<>][<>]|static_assert|COMPILE_ASSERT)\\s*\\(")
      line

unfoldable pub is_whitelisted : List Text → ℕ → Text → Bool
is_whitelisted elided linenum line =
    whitelisted line
    || (not (occurs (re "\\S+\\([^)]*$") line)
        && (ltb 0 linenum && whitelisted (line_at elided (linenum - 1))
            || ltb 1 linenum && whitelisted (line_at elided (linenum - 2))))

unfoldable pub in_function : Option Block → Bool
in_function none = false
in_function (some block) = not (is_class block.kind || is_namespace block.kind)

-- the texts of `_RE_PATTERN_TYPE` and `_RE_PATTERN_IDENT`
unfoldable pub pattern_type : Text
pattern_type =
    (text "(?:const\\s+)?(?:typename\\s+|class\\s+|struct\\s+|union\\s+|enum\\s+)?")
    ++ ((text "(?:\\w|") ++ ((text "\\s*<(?:<(?:<[^<>]*>|[^<>])*>|[^<>])*>|") ++ (text "::)+")))

unfoldable pub pattern_ident : Text
pattern_ident = (text "[_a-zA-Z]\\w*")

unfoldable pub ref_param : Regex
ref_param = pattern (
    (text "(")
    ++ (pattern_type
        ++ ((text "(?:\\s*(?:\\bconst\\b|[*]))*\\s*&\\s*")
            ++ (pattern_ident ++ (text ")\\s*(?:=[^,()]+)?[,)]")))))

unfoldable pub const_ref_param : Regex
const_ref_param = pattern (
    (text "(?:.*\\s*\\bconst\\s*&\\s*")
    ++ (pattern_ident
        ++ ((text "|const\\s+")
            ++ (pattern_type ++ ((text "\\s*&\\s*") ++ (pattern_ident ++ (text ")")))))))

unfoldable pub is_exempt : List Text → ℕ → Text → NestingState → Bool
is_exempt elided linenum line nesting_state =
    is_derived_function elided linenum
    || is_out_of_line_method_definition elided linenum
    || in_function nesting_state.previous_stack_top
    || list_begins elided (linenum - 1) (linenum - 1 - (linenum - 10))
    || occurs (re "\\\\\\s*$") line
    || is_initializer_list elided linenum
    || is_whitelisted elided linenum line

unfoldable pub check_parameter : Text → Text → ℕ → Handler → Action
check_parameter parameter filename linenum error = when (not (matches const_ref_param parameter)) (
    error filename linenum (text "runtime/references") 2 (
      (text "Is this a non-const reference? ")
      ++ ((text "If so, make const or use a pointer: ")
          ++ replace_all (re " *<") (text "<") parameter)))

unfoldable pub check_for_non_const_reference :
    Text → CleansedLines → ℕ → NestingState → Handler → Action
check_for_non_const_reference filename clean_lines linenum nesting_state error =
    let elided = clean_lines.elided in
    let line : Text = reference_line elided linenum in
    let decls : Text = replace_all (re "{[^}]*}") (text " ") line in
    when
      (contains (line_at elided linenum) (text "&")
        && not (is_exempt elided linenum line nesting_state))
      (each (λ m. check_parameter (group_text 1 m) filename linenum error)
        (find_all (length decls) ref_param decls))
