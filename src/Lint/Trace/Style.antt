-- ===== src/Lint/Trace/Style.antt =====
-- What the checks of a line's layout in scripts/cpplint.py can do to the globals.
use epiphany_bsp.Base.{ℕ}
use epiphany_bsp.Base.Text.{Text, equal, text}
use epiphany_bsp.Lint.Categories.{error_categories}
use epiphany_bsp.Lint.Cleanse.{CleansedLines}
use epiphany_bsp.Lint.Nesting.{NestingState}
use epiphany_bsp.Lint.RValue.{check_rvalue_reference}
use epiphany_bsp.Lint.Report.{error}
use epiphany_bsp.Lint.Style.{
  check_indent, check_layout, check_line_length, check_spacing, check_style,
}
use epiphany_bsp.Lint.Style.AltTokens.{check_alt_tokens}
use epiphany_bsp.Lint.Style.CheckMacros.{check_check, check_comparison}
use epiphany_bsp.Lint.Style.Width.{Settings}
use epiphany_bsp.Lint.Trace.Rules.{IsTraced, traced_rules}
use epiphany_bsp.Lint.Trace.Braces.{
  check_braces-IsTraced, check_empty_block_body-IsTraced, check_trailing_semicolon-IsTraced,
}
use epiphany_bsp.Lint.Trace.Lines.{check_comment-IsTraced}
use epiphany_bsp.Lint.Trace.Spacing.{
  check_access-IsTraced, check_blank_line-IsTraced, check_braces_spacing-IsTraced,
  check_comma_spacing-IsTraced, check_operator_spacing-IsTraced, check_parenthesis_spacing-IsTraced,
  check_section_spacing-IsTraced, check_spacing_for_function_call-IsTraced,
}

pub check_rvalue_reference-IsTraced :
    (filename : Text) (clean_lines : CleansedLines) (linenum : ℕ) (nesting_state : NestingState)
    → IsTraced (check_rvalue_reference filename clean_lines linenum nesting_state error)
unfolding check_rvalue_reference text equal error_categories
check_rvalue_reference-IsTraced filename clean_lines linenum nesting_state =
    search (traced_rules) depth 40

pub check_comparison-IsTraced :
    (macro : Text) (expression : Text) (filename : Text) (linenum : ℕ)
    → IsTraced (check_comparison macro expression filename linenum error)
unfolding check_comparison text equal error_categories
check_comparison-IsTraced macro expression filename linenum = search (traced_rules) depth 40

pub check_check-IsTraced :
    (filename : Text) (clean_lines : CleansedLines) (linenum : ℕ)
    → IsTraced (check_check filename clean_lines linenum error)
unfolding check_check text equal error_categories
check_check-IsTraced filename clean_lines linenum =
    search (traced_rules, check_comparison-IsTraced) depth 40

pub check_alt_tokens-IsTraced :
    (filename : Text) (clean_lines : CleansedLines) (linenum : ℕ)
    → IsTraced (check_alt_tokens filename clean_lines linenum error)
unfolding check_alt_tokens text equal error_categories
check_alt_tokens-IsTraced filename clean_lines linenum = search (traced_rules) depth 40

pub check_spacing-IsTraced :
    (filename : Text) (clean_lines : CleansedLines) (linenum : ℕ) (nesting_state : NestingState)
    → IsTraced (check_spacing filename clean_lines linenum nesting_state error)
unfolding check_spacing text equal error_categories
check_spacing-IsTraced filename clean_lines linenum nesting_state =
    search (traced_rules, check_blank_line-IsTraced, check_comment-IsTraced) depth 40

pub check_indent-IsTraced :
    (line : Text) (clean_lines : CleansedLines) (filename : Text) (linenum : ℕ)
    → IsTraced (check_indent line clean_lines filename linenum error)
unfolding check_indent text equal error_categories
check_indent-IsTraced line clean_lines filename linenum = search (traced_rules) depth 40

pub check_line_length-IsTraced :
    (settings : Settings) (line : Text) (filename : Text) (linenum : ℕ) (file_extension : Text)
    → IsTraced (check_line_length settings line filename linenum file_extension error)
unfolding check_line_length text equal error_categories
check_line_length-IsTraced settings line filename linenum file_extension =
    search (traced_rules) depth 40

pub check_layout-IsTraced :
    (settings : Settings) (filename : Text) (clean_lines : CleansedLines) (linenum : ℕ)
    (file_extension : Text)
    → IsTraced (check_layout settings filename clean_lines linenum file_extension error)
unfolding check_layout text equal error_categories
check_layout-IsTraced settings filename clean_lines linenum file_extension =
    search (traced_rules, check_indent-IsTraced, check_line_length-IsTraced) depth 40

pub check_style-IsTraced :
    (settings : Settings) (filename : Text) (clean_lines : CleansedLines) (linenum : ℕ)
    (file_extension : Text) (nesting_state : NestingState)
    → IsTraced
        (check_style settings filename clean_lines linenum file_extension nesting_state error)
unfolding check_style text equal error_categories
check_style-IsTraced settings filename clean_lines linenum file_extension nesting_state =
    search
      (
        traced_rules, check_spacing_for_function_call-IsTraced, check_operator_spacing-IsTraced,
        check_parenthesis_spacing-IsTraced, check_comma_spacing-IsTraced,
        check_braces_spacing-IsTraced, check_access-IsTraced, check_section_spacing-IsTraced,
        check_empty_block_body-IsTraced, check_trailing_semicolon-IsTraced, check_braces-IsTraced,
        check_rvalue_reference-IsTraced, check_check-IsTraced, check_alt_tokens-IsTraced,
        check_spacing-IsTraced, check_layout-IsTraced,
      )
      depth 40
