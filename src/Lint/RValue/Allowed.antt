-- ===== src/Lint/RValue/Allowed.antt =====
-- `IsDeletedOrDefault`, `IsRValueAllowed` and `GetTemplateArgs` of scripts/cpplint.py.
use epiphany_bsp.Base.{
  Bool, List, Option, [], drop, false, if◌then◌else◌, leb, length, ltb, none, not, some, suc, take,
  zero, ℕ, ◌&&◌, ◌++◌, ◌+◌, ◌-◌, ◌==◌, ◌||◌, ◌∷◌,
}
use epiphany_bsp.Base.Text.{Text, contains, ends_with, equal, find, member, text}
use epiphany_bsp.Lint.Expression.{Place, close_expression}
use epiphany_bsp.Lint.Expression.Reverse.{reverse_close_expression}
use epiphany_bsp.Lint.Spacing.Punctuation.{concat_text, lines_between}
use epiphany_bsp.Lint.Steps.{line_at}
use epiphany_bsp.Regex.{group_text, match, matches, occurs}
use epiphany_bsp.Regex.Compile.{re}

unfoldable pub is_deleted_or_default : List Text → ℕ → Bool
is_deleted_or_default elided linenum = elim (find (line_at elided linenum) (text "(")) [
  | none ↦ false
  | some open_paren ↦
      let close : Place = close_expression elided linenum open_paren in
      elim close.pos [
        | none ↦ false
        | some close_paren ↦
            matches (re "\\s*=\\s*(?:delete|default)\\b") (drop close_paren close.line)
      ]
]

unfoldable pub is_allow_macro : Text → Bool
is_allow_macro line = matches (re "GOOGLE_ALLOW_RVALUE_REFERENCES_(?:PUSH|POP)") line

-- the next macro of the lines ends the region
unfoldable pub ends_region : List Text → Option Bool
ends_region [] = none
ends_region (line ∷ lines) =
    let below = ends_region lines in
    if is_allow_macro line then some (ends_with line (text "POP")) else below

-- What the macros say, from the given line up; where no macro follows the line the walk goes on.
unfoldable pub in_region : List Text → ℕ → ℕ → Option Bool
in_region elided linenum zero = none
in_region elided linenum (suc i) =
    let above = in_region elided linenum i in
    let line = line_at elided (suc i) in
    if not (is_allow_macro line)
    then above
    else if not (ends_with line (text "PUSH"))
    then some false
    else elim (ends_region (drop linenum elided)) [ none ↦ above | some b ↦ some b ]

-- Every `&&` stands behind one of the names. A round passes three characters at least, so that the
-- length of the line is enough fuel.
unfoldable pub only_forwards : ℕ → List Text → Text → Bool
only_forwards zero typenames line = not (contains line (text "&&"))
only_forwards (suc fuel) typenames line = elim (match (re "^.*?(\\w+)\\s*&&(.*)$") line) [
  | none ↦ not (contains line (text "&&"))
  | some m ↦
      let rest = only_forwards fuel typenames (group_text 2 m) in
      if member (group_text 1 m) typenames then rest else false
]

unfoldable pub is_qualified_constructor : Text → Bool
is_qualified_constructor line =
    elim (match (re "\\s*(?:[\\w<>]+::)*([\\w<>]+)\\s*::\\s*([\\w<>]+)\\s*\\(") line) [
      | none ↦ false
      | some m ↦ equal (group_text 1 m) (group_text 2 m)
    ]

unfoldable pub is_plain_constructor : List Text → ℕ → Bool
is_plain_constructor elided linenum =
    let previous_line =
      if linenum == 0 then (text "ReturnType") else line_at elided (linenum - 1) in
    matches (re "\\s*[\\w<>]+\\s*\\(") (line_at elided linenum)
    && (matches (re "^\\s*$") previous_line || occurs (re "[{}:;]\\s*$") previous_line)

unfoldable pub is_rvalue_allowed : List Text → ℕ → List Text → Bool
is_rvalue_allowed elided linenum typenames =
    let line = line_at elided linenum in
    elim (in_region elided linenum linenum) [
      | some b ↦ b
      | none ↦
          if occurs (re "\\boperator\\s*=\\s*\\(") line
            || is_qualified_constructor line
            || occurs (re "\\b(?:explicit|inline)\\s+[\\w<>]+\\s*\\(") line
            || is_plain_constructor elided linenum
          then is_deleted_or_default elided linenum
          else only_forwards (length line) typenames line
    ]

-- the nearest line up from a number, but not the first of the file, with a parenthesis, if no blank
-- line comes before it
unfoldable pub function_line : List Text → ℕ → Option ℕ
function_line elided zero = none
function_line elided (suc i) =
    let above = function_line elided i in
    let line = line_at elided (suc i) in
    if matches (re "^\\s*$") line
    then none
    else if contains line (text "(")
    then some (suc i)
    else above

-- from a column of a line to a column of another one below it, or of the same
unfoldable pub text_between : List Text → ℕ → ℕ → ℕ → ℕ → Text
text_between elided start_line start_col end_line end_col =
    if ltb start_line end_line
    then drop start_col (line_at elided start_line)
      ++ (concat_text (lines_between elided (start_line + 1) end_line)
          ++ take end_col (line_at elided end_line))
    else drop start_col (take end_col (line_at elided end_line))

unfoldable pub argument_list : List Text → ℕ → Text
argument_list elided func_line =
    elim (match (re "^(\\s*template\\s*)<") (line_at elided func_line)) [
      | some m ↦
          let start_col = length (group_text 1 m) in
          let end : Place = close_expression elided func_line start_col in
          elim end.pos [
            | none ↦ []
            | some end_col ↦
                if end.linenum == func_line
                then text_between elided func_line (start_col + 1) func_line end_col
                else []
          ]
      | none ↦
          if leb func_line 1
          then []
          else elim (match (re "^(.*)>\\s*$") (line_at elided (func_line - 1))) [
            | none ↦ []
            | some m ↦
                let end_col = length (group_text 1 m) in
                let start : Place = reverse_close_expression elided (func_line - 1) end_col in
                elim start.pos [
                  | none ↦ []
                  | some start_col ↦
                      text_between elided start.linenum (start_col + 1) (func_line - 1) end_col
                ]
          ]
    ]

-- the names of a parameter list; a round passes six characters at least
unfoldable pub type_names : ℕ → Text → List Text
type_names zero arguments = []
type_names (suc fuel) arguments =
    elim (match (re "^[,\\s]*(?:typename|class)(?:\\.\\.\\.)?\\s+(\\w+)(.*)$") arguments) [
      | none ↦ []
      | some m ↦ group_text 1 m ∷ type_names fuel (group_text 2 m)
    ]

unfoldable pub get_template_args : List Text → ℕ → List Text
get_template_args elided linenum = elim (function_line elided linenum) [
  | none ↦ []
  | some func_line ↦
      type_names (length (argument_list elided func_line)) (argument_list elided func_line)
]
