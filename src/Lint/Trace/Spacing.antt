-- ===== src/Lint/Trace/Spacing.antt =====
-- What the checks of spaces and blank lines in scripts/cpplint.py can do to the globals.
use epiphany_bsp.Base.{List, ℕ}
use epiphany_bsp.Base.Text.{Text, equal, text}
use epiphany_bsp.Lint.Block.{ClassInfo}
use epiphany_bsp.Lint.Categories.{error_categories}
use epiphany_bsp.Lint.Cleanse.{CleansedLines}
use epiphany_bsp.Lint.Nesting.{NestingState}
use epiphany_bsp.Lint.Report.{error}
use epiphany_bsp.Lint.Spacing.FunctionCalls.{check_call, check_spacing_for_function_call}
use epiphany_bsp.Lint.Spacing.Operators.{check_greater, check_less, check_operator_spacing}
use epiphany_bsp.Lint.Spacing.Punctuation.{
  check_braces_spacing, check_comma_spacing, check_parenthesis_spacing,
}
use epiphany_bsp.Lint.Spacing.Sections.{check_access, check_blank_line, check_section_spacing}
use epiphany_bsp.Lint.Trace.Rules.{IsTraced, traced_rules}

pub check_call-IsTraced :
    (fncall : Text) (line : Text) (filename : Text) (linenum : ℕ)
    → IsTraced (check_call fncall line filename linenum error)
unfolding check_call text equal error_categories
check_call-IsTraced fncall line filename linenum = search (traced_rules) depth 40

pub check_spacing_for_function_call-IsTraced :
    (filename : Text) (clean_lines : CleansedLines) (linenum : ℕ)
    → IsTraced (check_spacing_for_function_call filename clean_lines linenum error)
unfolding check_spacing_for_function_call text equal error_categories
check_spacing_for_function_call-IsTraced filename clean_lines linenum =
    search (traced_rules, check_call-IsTraced) depth 40

pub check_less-IsTraced :
    (line : Text) (elided : List Text) (filename : Text) (linenum : ℕ)
    → IsTraced (check_less line elided filename linenum error)
unfolding check_less text equal error_categories
check_less-IsTraced line elided filename linenum = search (traced_rules) depth 40

pub check_greater-IsTraced :
    (line : Text) (elided : List Text) (filename : Text) (linenum : ℕ)
    → IsTraced (check_greater line elided filename linenum error)
unfolding check_greater text equal error_categories
check_greater-IsTraced line elided filename linenum = search (traced_rules) depth 40

pub check_operator_spacing-IsTraced :
    (filename : Text) (clean_lines : CleansedLines) (linenum : ℕ)
    → IsTraced (check_operator_spacing filename clean_lines linenum error)
unfolding check_operator_spacing text equal error_categories
check_operator_spacing-IsTraced filename clean_lines linenum =
    search (traced_rules, check_less-IsTraced, check_greater-IsTraced) depth 40

pub check_parenthesis_spacing-IsTraced :
    (filename : Text) (clean_lines : CleansedLines) (linenum : ℕ)
    → IsTraced (check_parenthesis_spacing filename clean_lines linenum error)
unfolding check_parenthesis_spacing text equal error_categories
check_parenthesis_spacing-IsTraced filename clean_lines linenum = search (traced_rules) depth 40

pub check_comma_spacing-IsTraced :
    (filename : Text) (clean_lines : CleansedLines) (linenum : ℕ)
    → IsTraced (check_comma_spacing filename clean_lines linenum error)
unfolding check_comma_spacing text equal error_categories
check_comma_spacing-IsTraced filename clean_lines linenum = search (traced_rules) depth 40

pub check_braces_spacing-IsTraced :
    (filename : Text) (clean_lines : CleansedLines) (linenum : ℕ)
    → IsTraced (check_braces_spacing filename clean_lines linenum error)
unfolding check_braces_spacing text equal error_categories
check_braces_spacing-IsTraced filename clean_lines linenum = search (traced_rules) depth 40

pub check_access-IsTraced :
    (filename : Text) (clean_lines : CleansedLines) (linenum : ℕ) (nesting_state : NestingState)
    → IsTraced (check_access filename clean_lines linenum nesting_state error)
unfolding check_access text equal error_categories
check_access-IsTraced filename clean_lines linenum nesting_state = search (traced_rules) depth 40

pub check_section_spacing-IsTraced :
    (filename : Text) (clean_lines : CleansedLines) (info : ClassInfo) (linenum : ℕ)
    → IsTraced (check_section_spacing filename clean_lines info linenum error)
unfolding check_section_spacing text equal error_categories
check_section_spacing-IsTraced filename clean_lines info linenum = search (traced_rules) depth 40

pub check_blank_line-IsTraced :
    (filename : Text) (clean_lines : CleansedLines) (linenum : ℕ)
    → IsTraced (check_blank_line filename clean_lines linenum error)
unfolding check_blank_line text equal error_categories
check_blank_line-IsTraced filename clean_lines linenum = search (traced_rules) depth 40
