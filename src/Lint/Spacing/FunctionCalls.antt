-- ===== src/Lint/Spacing/FunctionCalls.antt =====
-- `CheckSpacingForFunctionCall` of scripts/cpplint.py: the spaces around the parentheses of a call.
use epiphany_bsp.Base.{Bool, List, [], none, not, some, ℕ, ◌&&◌, ◌||◌, ◌∷◌}
use epiphany_bsp.Base.Text.{Text, text}
use epiphany_bsp.Lint.Cleanse.{CleansedLines}
use epiphany_bsp.Lint.Report.{Handler}
use epiphany_bsp.Lint.Steps.{Action, branch, line_at, when, ◌⨾◌}
use epiphany_bsp.Regex.{Regex, group_text, occurs, search_in}
use epiphany_bsp.Regex.Compile.{re}

-- what stands in the parentheses of a control structure, or the whole line
unfoldable pub inside_control : List Regex → Text → Text
inside_control [] line = line
inside_control (p ∷ ps) line =
    let rest = inside_control ps line in
    elim (search_in p line) [ none ↦ rest | some m ↦ group_text 1 m ]

unfoldable pub control_patterns : List Regex
control_patterns =
    (re "\\bif\\s*\\((.*)\\)\\s*{")
    ∷ (re "\\bfor\\s*\\((.*)\\)\\s*{")
    ∷ (re "\\bwhile\\s*\\((.*)\\)\\s*[{;]")
    ∷ (re "\\bswitch\\s*\\((.*)\\)\\s*{")
    ∷ []

unfoldable pub is_exempt : Text → Bool
is_exempt fncall =
    occurs (re "\\b(if|for|while|switch|return|new|delete|catch|sizeof)\\b") fncall
    || occurs (re " \\([^)]+\\)\\([^)]*(\\)|,$)") fncall
    || occurs (re " \\([^)]+\\)\\[[^\\]]+\\]") fncall

unfoldable pub space_before_parenthesis : Text → Bool
space_before_parenthesis fncall =
    occurs (re "\\w\\s+\\(") fncall
    && not (occurs (re "#\\s*define|typedef|using\\s+\\w+\\s*=") fncall)
    && not (occurs (re "\\w\\s+\\((\\w+::)*\\*\\w+\\)\\(") fncall)
    && not (occurs (re "\\bcase\\s+\\(") fncall)

unfoldable pub check_call : Text → Text → Text → ℕ → Handler → Action
check_call fncall line filename linenum error =
    branch (occurs (re "\\w\\s*\\(\\s(?!\\s*\\\\$)") fncall)
      (error filename linenum (text "whitespace/parens") 4
        (text "Extra space after ( in function call"))
      (when (occurs (re "\\(\\s+(?!(\\s*\\\\)|\\()") fncall)
        (error filename linenum (text "whitespace/parens") 2 (text "Extra space after (")))
    ⨾ when (space_before_parenthesis fncall) (
        branch (occurs (re "\\boperator_*\\b") line)
          (error filename linenum (text "whitespace/parens") 0
            (text "Extra space before ( in function call"))
          (error filename linenum (text "whitespace/parens") 4
            (text "Extra space before ( in function call")))
    ⨾ when (occurs (re "[^)]\\s+\\)\\s*[^{\\s]") fncall) (
        branch (occurs (re "^\\s+\\)") fncall)
          (error filename linenum (text "whitespace/parens") 2
            (text "Closing ) should be moved to the previous line"))
          (error filename linenum (text "whitespace/parens") 2 (text "Extra space before )")))

unfoldable pub check_spacing_for_function_call : Text → CleansedLines → ℕ → Handler → Action
check_spacing_for_function_call filename clean_lines linenum error =
    let line = line_at clean_lines.elided linenum in
    let fncall = inside_control control_patterns line in
    when (not (is_exempt fncall)) (check_call fncall line filename linenum error)
