-- ===== src/Lint/Braces.antt =====
-- `CheckBraces` of scripts/cpplint.py.
pub mod PreviousLine
pub mod Nearest
pub mod Bodies
pub mod Semicolon
use epiphany_bsp.Base.{List, Option, drop, none, not, some, ℕ, ◌&&◌, ◌+◌, ◌||◌}
use epiphany_bsp.Base.Text.{Text, contains, find, text}
use epiphany_bsp.Lint.Braces.Bodies.{check_bodies}
use epiphany_bsp.Lint.Braces.PreviousLine.{from_index, previous_line, same_bool}
use epiphany_bsp.Lint.Cleanse.{CleansedLines}
use epiphany_bsp.Lint.Expression.{Place, close_expression}
use epiphany_bsp.Lint.Report.{Handler}
use epiphany_bsp.Lint.Steps.{Action, branch, for_some, line_at, when, ◌⨾◌}
use epiphany_bsp.Regex.{matches, occurs}
use epiphany_bsp.Regex.Compile.{re}

unfoldable pub check_open_brace : Text → List Text → Text → ℕ → Handler → Action
check_open_brace line elided filename linenum error =
    let prevline = previous_line elided linenum in
    when
      (matches (re "\\s*{\\s*$") line
        && not (occurs (re "[,;:}{(]\\s*$") prevline)
        && not (matches (re "\\s*#") prevline))
      (error filename linenum (text "whitespace/braces") 4
        (text "{ should almost always be at the end of the previous line"))

unfoldable pub check_else_place : Text → List Text → Text → ℕ → Handler → Action
check_else_place line elided filename linenum error =
    when
      (matches (re "\\s*else\\b\\s*(?:if\\b|\\{|$)") line
        && matches (re "\\s*}\\s*$") (previous_line elided linenum))
      (error filename linenum (text "whitespace/newline") 4
        (text "An else should appear on the same line as the preceding }"))

-- the first parenthesis behind the first `else if`
unfoldable pub else_if_parenthesis : Text → Option ℕ
else_if_parenthesis line = elim (find line (text "else if")) [
  | none ↦ none
  | some i ↦ elim (find (drop i line) (text "(")) [ none ↦ none | some j ↦ some (i + j) ]
]

unfoldable pub check_else_braces : Text → List Text → Text → ℕ → Handler → Action
check_else_braces line elided filename linenum error =
    let uneven =
      error filename linenum (text "readability/braces") 5
        (text "If an else has a brace on one side, it should have it on both") in
    branch (occurs (re "else if\\s*\\(") line)
      (for_some (else_if_parenthesis line) (λ i.
        let end : Place = close_expression elided linenum i in
        when
          (not (
            same_bool (occurs (re "}\\s*else if\\s*\\(") line)
              (contains (from_index end.line end.pos) (text "{"))))
          uneven))
      (when (occurs (re "}\\s*else[^{]*$") line || matches (re "[^}]*else\\s*{") line) uneven)

unfoldable pub check_braces : Text → CleansedLines → ℕ → Handler → Action
check_braces filename clean_lines linenum error =
    let elided = clean_lines.elided in
    let line = line_at elided linenum in
    check_open_brace line elided filename linenum error
    ⨾ check_else_place line elided filename linenum error
    ⨾ check_else_braces line elided filename linenum error
    ⨾ when (occurs (re "\\belse [^\\s{]") line && not (occurs (re "\\belse if\\b") line)) (
        error filename linenum (text "whitespace/newline") 4
          (text "Else clause should never be on same line as else (use 2 lines)"))
    ⨾ when (matches (re "\\s*do [^\\s{]") line) (
        error filename linenum (text "whitespace/newline") 4
          (text "do/while clauses should not be on a single line"))
    ⨾ check_bodies line elided filename linenum error
