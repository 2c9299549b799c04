-- ===== src/Lint/Style.antt =====
-- `CheckSpacing` and `CheckStyle` of scripts/cpplint.py: the checks of a line's layout.
pub mod Width
pub mod CheckMacros
pub mod AltTokens
use epiphany_bsp.Base.{
  Bool, List, [], get_or, if◌then◌else◌, length, ltb, not, suc, ℕ, ◌&&◌, ◌++◌, ◌+◌, ◌-◌, ◌==◌, ◌||◌,
  ◌∷◌,
}
use epiphany_bsp.Base.Text.{
  Text, contains, count, equal, is_unicode_space, unicode_lstrip, starts_with, text,
}
use epiphany_bsp.Lint.Braces.{check_braces}
use epiphany_bsp.Lint.Braces.Bodies.{check_empty_block_body}
use epiphany_bsp.Lint.Braces.PreviousLine.{previous_line}
use epiphany_bsp.Lint.Braces.Semicolon.{check_trailing_semicolon}
use epiphany_bsp.Lint.Cleanse.{CleansedLines}
use epiphany_bsp.Lint.Cleanse.MultiLine.Rounds.{code}
use epiphany_bsp.Lint.CommentStyle.{check_comment}
use epiphany_bsp.Lint.HeaderGuard.{get_header_guard_cpp_variable}
use epiphany_bsp.Lint.NamespaceIndent.{is_blank_line}
use epiphany_bsp.Lint.Nesting.{NestingState, in_extern_c, in_namespace_body, innermost_class}
use epiphany_bsp.Lint.RValue.{check_rvalue_reference}
use epiphany_bsp.Lint.Report.{Handler}
use epiphany_bsp.Lint.Spacing.FunctionCalls.{check_spacing_for_function_call}
use epiphany_bsp.Lint.Spacing.Operators.{check_operator_spacing}
use epiphany_bsp.Lint.Spacing.Punctuation.{
  check_braces_spacing, check_comma_spacing, check_parenthesis_spacing,
}
use epiphany_bsp.Lint.Spacing.Sections.{check_access, check_blank_line, check_section_spacing}
use epiphany_bsp.Lint.Steps.{Action, branch, for_some, line_at, when, ◌⨾◌}
use epiphany_bsp.Lint.Style.AltTokens.{check_alt_tokens}
use epiphany_bsp.Lint.Style.CheckMacros.{check_check}
use epiphany_bsp.Lint.Style.Width.{Settings, decimal_int, exceeds, extended_length, get_line_width}
use epiphany_bsp.Regex.{is_nil, matches, occurs, spaces}
use epiphany_bsp.Regex.Compile.{re}

unfoldable pub next_line_start : List Text → ℕ → ℕ → ℕ
next_line_start raw linenum num_lines =
    let next_line = line_at raw (linenum + 1) in
    if ltb (linenum + 1) num_lines then length next_line - length (unicode_lstrip next_line) else 0

unfoldable pub check_spacing : Text → CleansedLines → ℕ → NestingState → Handler → Action
check_spacing filename clean_lines linenum nesting_state error =
    let raw = clean_lines.lines_without_raw_strings in
    let line = line_at raw linenum in
    let code = line_at clean_lines.elided linenum in
    when
      (is_blank_line line
        && not (in_namespace_body nesting_state)
        && not (in_extern_c nesting_state))
      (check_blank_line filename clean_lines linenum error)
    ⨾ check_comment line filename linenum (next_line_start raw linenum clean_lines.num_lines) error
    ⨾ when (occurs (re "\\w\\s+\\[") code && not (occurs (re "(?:delete|return)\\s+\\[") code))
        (error filename linenum (text "whitespace/braces") 5 (text "Extra space before ["))
    ⨾ when (occurs (re "for *\\(.*[^:]:[^: ]") code || occurs (re "for *\\(.*[^: ]:[^:]") code) (
        error filename linenum (text "whitespace/forcolon") 2
          (text "Missing space around colon in range-based for loop"))

unfoldable pub initial_spaces : Text → ℕ
initial_spaces [] = 0
initial_spaces (c ∷ s) = let more = initial_spaces s in if c == b' ' then suc more else 0

unfoldable pub ends_in_space : Text → Bool
ends_in_space line = not (is_nil line) && is_unicode_space (get_or line (length line - 1) 0)

unfoldable pub check_indent : Text → CleansedLines → Text → ℕ → Handler → Action
check_indent line clean_lines filename linenum error =
    let spaces = initial_spaces line in
    branch (ends_in_space line)
      (error filename linenum (text "whitespace/end_of_line") 4
        (text "Line ends in whitespace.  Consider deleting these extra spaces."))
      (when
        ((spaces == 1 || spaces == 3)
          && not (matches (re "\\s*\\w+\\s*:\\s*\\\\?$") (line_at clean_lines.elided linenum))
          && not (
              not (equal (line_at clean_lines.raw_lines linenum) line)
              && matches (re "^\\s*\"\"") line))
        (error filename linenum (text "whitespace/indent") 3 (
          (text "Weird number of spaces at line-start.  ")
          ++ (text "Are you using a 2-space indent?"))))

unfoldable pub is_header_guard : Settings → Text → Text → Text → Bool
is_header_guard settings line filename file_extension =
    let cppvar = get_header_guard_cpp_variable settings.file_system settings.root filename in
    equal file_extension (text "h")
    && (starts_with line ((text "#ifndef ") ++ cppvar)
        || starts_with line ((text "#define ") ++ cppvar)
        || starts_with line ((text "#endif  // ") ++ cppvar))

unfoldable pub check_line_length : Settings → Text → Text → ℕ → Text → Handler → Action
check_line_length settings line filename linenum file_extension error =
    let width = get_line_width settings.unicode line in
    let most = settings.line_length in
    when
      (not (starts_with line (text "#include"))
        && not (is_header_guard settings line filename file_extension)
        && not (matches (re "^\\s*//.*http(s?)://\\S*$") line)
        && not (matches (re "^// \\$Id:.*#[0-9]+ \\$$") line))
      (branch (exceeds width (extended_length most))
        (error filename linenum (text "whitespace/line_length") 4 (
          (text "Lines should very rarely be longer than ")
          ++ (decimal_int (extended_length most) ++ (text " characters"))))
        (when (exceeds width most) (
          error filename linenum (text "whitespace/line_length") 2
            ((text "Lines should be <= ") ++ (decimal_int most ++ (text " characters long"))))))

unfoldable pub has_several_commands : List Text → ℕ → Bool
has_several_commands elided linenum =
    let line = line_at elided linenum in
    let previous = previous_line elided linenum in
    ltb 1 (count line (text ";"))
    && not (contains line (text "for"))
    && (not (contains previous (text "for")) || contains previous (text ";"))
    && not (
        (contains line (text "case ") || contains line (text "default:"))
        && contains line (text "break;"))

unfoldable pub check_layout : Settings → Text → CleansedLines → ℕ → Text → Handler → Action
check_layout settings filename clean_lines linenum file_extension error =
    let line = line_at clean_lines.lines_without_raw_strings linenum in
    when (contains line (9 ∷ []))
      (error filename linenum (text "whitespace/tab") 1 (text "Tab found; better to use spaces"))
    ⨾ check_indent line clean_lines filename linenum error
    ⨾ check_line_length settings line filename linenum file_extension error
    ⨾ when (has_several_commands clean_lines.elided linenum) (
        error filename linenum (text "whitespace/newline") 0
          (text "More than one command on the same line"))

unfoldable pub check_style :
    Settings → Text → CleansedLines → ℕ → Text → NestingState → Handler → Action
check_style settings filename clean_lines linenum file_extension nesting_state error =
    check_layout settings filename clean_lines linenum file_extension error
    ⨾ check_braces filename clean_lines linenum error
    ⨾ check_trailing_semicolon filename clean_lines linenum error
    ⨾ check_empty_block_body filename clean_lines linenum error
    ⨾ check_access filename clean_lines linenum nesting_state error
    ⨾ check_spacing filename clean_lines linenum nesting_state error
    ⨾ check_operator_spacing filename clean_lines linenum error
    ⨾ check_parenthesis_spacing filename clean_lines linenum error
    ⨾ check_comma_spacing filename clean_lines linenum error
    ⨾ check_braces_spacing filename clean_lines linenum error
    ⨾ check_spacing_for_function_call filename clean_lines linenum error
    ⨾ check_rvalue_reference filename clean_lines linenum nesting_state error
    ⨾ check_check filename clean_lines linenum error
    ⨾ check_alt_tokens filename clean_lines linenum error
    ⨾ for_some (innermost_class nesting_state)
        (λ info. check_section_spacing filename clean_lines info linenum error)
