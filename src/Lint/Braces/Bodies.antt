-- ===== src/Lint/Braces/Bodies.antt =====
-- The end of `CheckBraces` of scripts/cpplint.py, the bodies of `if` and `else`, and
-- `CheckEmptyBlockBody`.
use epiphany_bsp.Base.{
  Bool, List, Option, [], drop, if◌then◌else◌, length, ltb, none, not, some, suc, ℕ, ◌&&◌, ◌++◌,
  ◌+◌, ◌-◌, ◌==◌, ◌||◌, ◌∷◌,
}
use epiphany_bsp.Base.Text.{Text, contains, equal, find, text}
use epiphany_bsp.Lint.Block.{get_indent_level}
use epiphany_bsp.Lint.Braces.PreviousLine.{from_index}
use epiphany_bsp.Lint.Cleanse.{CleansedLines}
use epiphany_bsp.Lint.Expression.{Place, close_expression}
use epiphany_bsp.Lint.Report.{Handler}
use epiphany_bsp.Lint.Steps.{Action, branch, for_some, line_at, when}
use epiphany_bsp.Regex.{Found, group_text, match, matches, occurs, search_in}
use epiphany_bsp.Regex.Compile.{re}

-- the first of the lines with a semicolon, the first of them having the given number
unfoldable pub next_semicolon : List Text → ℕ → Option ℕ
next_semicolon [] i = none
next_semicolon (l ∷ ls) i =
    let further = next_semicolon ls (suc i) in if contains l (text ";") then some i else further

-- the line with the next semicolon from a place on
unfoldable pub line_with_semicolon : List Text → Place → Option ℕ
line_with_semicolon elided p =
    let below = next_semicolon (drop (p.linenum + 1) elided) (p.linenum + 1) in
    if not (ltb p.linenum (length elided))
    then none
    else if contains (from_index (line_at elided p.linenum) p.pos) (text ";")
    then some p.linenum
    else below

abbrev pub end_of : Found → ℕ
end_of m = length m.head + length m.covered

-- where the condition of an `if` ends, or else the keyword
unfoldable pub body_place : Text → List Text → ℕ → Found → Place
body_place line elided linenum m = elim (search_in (re "\\bif\\s*\\(") line) [
  | none ↦ record { line = line; linenum = linenum; pos = some (end_of m) }
  | some k ↦ close_expression elided linenum (end_of k - 1)
]

-- an opening brace follows, on the line or at the start of the one below
unfoldable pub has_brace : List Text → Place → Bool
has_brace elided p =
    let behind = from_index p.line p.pos in
    matches (re "\\s*{") behind
    || (matches (re "\\s*$") behind
        && ltb p.linenum (length elided - 1)
        && matches (re "\\s*{") (line_at elided (p.linenum + 1)))

unfoldable pub check_next_line : Text → List Text → ℕ → Text → ℕ → Handler → Action
check_next_line line elided endlinenum filename linenum error =
    let next_line = line_at elided (endlinenum + 1) in
    let next_indent = get_indent_level next_line in
    let if_indent = get_indent_level line in
    branch
      (occurs (re "\\bif\\s*\\(") line
        && matches (re "\\s*else\\b") next_line
        && not (next_indent == if_indent))
      (error filename linenum (text "readability/braces") 4 (
        (text "Else clause should be indented at the same level as if. ")
        ++ (text "Ambiguous nested if/else chains require braces.")))
      (when (ltb if_indent next_indent) (
        error filename linenum (text "readability/braces") 4
          (text "If/else bodies with multiple statements require braces")))

unfoldable pub check_statement_end : Text → List Text → ℕ → Text → ℕ → Handler → Action
check_statement_end line elided endlinenum filename linenum error =
    let endline = line_at elided endlinenum in
    branch (not (matches (re ";[\\s}]*(\\\\?)$") (from_index endline (find endline (text ";")))))
      (when
        (not (matches (re "^[^{};]*\\[[^\\[\\]]*\\][^{}]*\\{[^{}]*\\}\\s*\\)*[;,]\\s*$") endline))
        (error filename linenum (text "readability/braces") 4
          (text "If/else bodies with multiple statements require braces")))
      (when (ltb endlinenum (length elided - 1))
        (check_next_line line elided endlinenum filename linenum error))

unfoldable pub check_bodies : Text → List Text → Text → ℕ → Handler → Action
check_bodies line elided filename linenum error =
    for_some (search_in (re "\\b(if\\s*\\(|else\\b)") line) (λ m.
      let place : Place = body_place line elided linenum m in
      when (not (matches (re "\\s*#") line) && not (has_brace elided place)) (
        for_some (line_with_semicolon elided place)
          (λ endlinenum. check_statement_end line elided endlinenum filename linenum error)))

unfoldable pub check_empty_block_body : Text → CleansedLines → ℕ → Handler → Action
check_empty_block_body filename clean_lines linenum error =
    let line = line_at clean_lines.elided linenum in
    for_some (match (re "\\s*(for|while|if)\\s*\\(") line) (λ m.
      for_some (find line (text "(")) (λ parenthesis.
        let end : Place = close_expression clean_lines.elided linenum parenthesis in
        for_some end.pos (λ end_pos. when (matches (re ";") (drop end_pos end.line)) (
          branch (equal (group_text 1 m) (text "if"))
            (error filename end.linenum (text "whitespace/empty_conditional_body") 5
              (text "Empty conditional bodies should use {}"))
            (error filename end.linenum (text "whitespace/empty_loop_body") 5
              (text "Empty loop bodies should use {} or continue"))))))
