-- ===== src/Lint/Spacing/Punctuation.antt =====
-- `CheckParenthesisSpacing`, `CheckCommaSpacing` and `CheckBracesSpacing` of scripts/cpplint.py.
use epiphany_bsp.Base.{
  Bool, List, [], drop, if◌then◌else◌, leb, length, ltb, none, not, some, take, ℕ, ◌&&◌, ◌++◌, ◌+◌,
  ◌-◌, ◌==◌, ◌||◌, ◌∷◌,
}
use epiphany_bsp.Base.Text.{Text, equal, text}
use epiphany_bsp.Lint.Cleanse.{CleansedLines}
use epiphany_bsp.Lint.Expression.{Place, close_expression}
use epiphany_bsp.Lint.Report.{Handler}
use epiphany_bsp.Lint.Steps.{Action, branch, for_some, line_at, when, ◌⨾◌}
use epiphany_bsp.Regex.{Found, group_text, match, matches, occurs, replace_all, search_in}
use epiphany_bsp.Regex.Compile.{re}

-- the numbers of spaces behind the opening and before the closing parenthesis differ, for no good reason
unfoldable pub mismatches : Found → Text → Bool
mismatches m line =
    let left = length (group_text 2 m) in
    let right = length (group_text 4 m) in
    not (left == right)
    && not (
        equal (group_text 3 m) (text ";") && left == 1 + right
        || left == 0 && occurs (re "\\bfor\\s*\\(.*; \\)") line)

unfoldable pub check_parenthesis_spacing : Text → CleansedLines → ℕ → Handler → Action
check_parenthesis_spacing filename clean_lines linenum error =
    let line = line_at clean_lines.elided linenum in
    for_some (search_in (re " (if\\(|for\\(|while\\(|switch\\()") line) (λ m.
      error filename linenum (text "whitespace/parens") 5
        ((text "Missing space before ( in ") ++ group_text 1 m))
    ⨾ for_some
        (search_in (re "\\b(if|for|while|switch)\\s*\\(([ ]*)(.).*[^ ]+([ ]*)\\)\\s*{\\s*$") line)
        (λ m.
          when (mismatches m line) (
            error filename linenum (text "whitespace/parens") 5
              ((text "Mismatching spaces inside () in ") ++ group_text 1 m))
          ⨾ when (not (leb (length (group_text 2 m)) 1)) (
              error filename linenum (text "whitespace/parens") 5
                ((text "Should have zero or one spaces inside ( and ) in ") ++ group_text 1 m)))

unfoldable pub check_comma_spacing : Text → CleansedLines → ℕ → Handler → Action
check_comma_spacing filename clean_lines linenum error =
    let line = line_at clean_lines.elided linenum in
    let raw = line_at clean_lines.lines_without_raw_strings linenum in
    let comma = (re ",[^,\\s]") in
    when
      (occurs comma (replace_all (re "\\boperator\\s*,\\s*\\(") (text "F(") line)
        && occurs comma raw)
      (error filename linenum (text "whitespace/comma") 3 (text "Missing space after ,"))
    ⨾ when (occurs (re ";[^\\s};\\\\)/]") line)
        (error filename linenum (text "whitespace/semicolon") 3 (text "Missing space after ;"))

-- the lines from the first number on, up to the second
unfoldable pub lines_between : List Text → ℕ → ℕ → List Text
lines_between lines first last = take (last - first) (drop first lines)

unfoldable pub concat_text : List Text → Text
concat_text [] = []
concat_text (s ∷ ss) = s ++ concat_text ss

-- What follows the closing brace on its line and the two lines below. The lines end before the last
-- one of the file, which holds a marker.
unfoldable pub trailing_text : CleansedLines → Place → Text
trailing_text clean_lines p =
    elim p.pos [ none ↦ [] | some endpos ↦ drop endpos p.line ]
    ++ concat_text (
        lines_between clean_lines.elided (p.linenum + 1) (
          if ltb (p.linenum + 3) (clean_lines.num_lines - 1)
          then p.linenum + 3
          else clean_lines.num_lines - 1))

unfoldable pub check_braces_spacing : Text → CleansedLines → ℕ → Handler → Action
check_braces_spacing filename clean_lines linenum error =
    let line = line_at clean_lines.elided linenum in
    for_some (match (re "^(.*[^ ({>]){") line) (λ m.
      when
        (not (
          matches (re "^[\\s}]*[{.;,)<>\\]:]") (
            trailing_text clean_lines
              (close_expression clean_lines.elided linenum (length (group_text 1 m))))))
        (error filename linenum (text "whitespace/braces") 5 (text "Missing space before {")))
    ⨾ when (occurs (re "}else") line)
        (error filename linenum (text "whitespace/braces") 5 (text "Missing space before else"))
    ⨾ branch (occurs (re ":\\s*;\\s*$") line)
        (error filename linenum (text "whitespace/semicolon") 5
          (text "Semicolon defining empty statement. Use {} instead."))
        (branch (occurs (re "^\\s*;\\s*$") line)
          (error filename linenum (text "whitespace/semicolon") 5 (
            (text "Line contains only semicolon. If this should be an empty statement, ")
            ++ (text "use {} instead.")))
          (when (occurs (re "\\s+;\\s*$") line && not (occurs (re "\\bfor\\b") line)) (
            error filename linenum (text "whitespace/semicolon") 5 (
              (text "Extra space before last semicolon. If this should be an empty ")
              ++ (text "statement, use {} instead.")))))
