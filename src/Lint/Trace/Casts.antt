-- ===== src/Lint/Trace/Casts.antt =====
-- What the checks of casts and references in scripts/cpplint.py can do to the globals.
use epiphany_bsp.Base.{Bool, ℕ}
use epiphany_bsp.Base.Text.{Text, equal, text}
use epiphany_bsp.Lint.Casts.{
  Address, check_casts, check_other_casts, fails, of_cast, of_dereferenced, report_address,
}
use epiphany_bsp.Lint.Casts.References.{check_for_non_const_reference, check_parameter}
use epiphany_bsp.Lint.Casts.Style.{Verdict, cast, check_c_style_cast, other, report_cast, unnamed}
use epiphany_bsp.Lint.Categories.{error_categories}
use epiphany_bsp.Lint.Cleanse.{CleansedLines}
use epiphany_bsp.Lint.Nesting.{NestingState}
use epiphany_bsp.Lint.Report.{error}
use epiphany_bsp.Lint.Trace.Rules.{IsTraced, traced_rules}
use epiphany_bsp.Regex.{Regex}

pub report_cast-IsTraced :
    (verdict : Verdict) (cast_type : Text) (filename : Text) (linenum : ℕ)
    → IsTraced (report_cast verdict cast_type filename linenum error)
unfolding report_cast text equal error_categories
report_cast-IsTraced other cast_type filename linenum = search (traced_rules) depth 40
report_cast-IsTraced unnamed cast_type filename linenum = search (traced_rules) depth 40
report_cast-IsTraced (cast type) cast_type filename linenum = search (traced_rules) depth 40

pub check_c_style_cast-IsTraced :
    (filename : Text) (clean_lines : CleansedLines) (linenum : ℕ) (cast_type : Text)
    (pattern : Regex)
    → IsTraced (check_c_style_cast filename clean_lines linenum cast_type pattern error)
unfolding check_c_style_cast text equal error_categories
check_c_style_cast-IsTraced filename clean_lines linenum cast_type pattern =
    search (traced_rules, report_cast-IsTraced) depth 40

pub check_parameter-IsTraced :
    (parameter : Text) (filename : Text) (linenum : ℕ)
    → IsTraced (check_parameter parameter filename linenum error)
unfolding check_parameter text equal error_categories
check_parameter-IsTraced parameter filename linenum = search (traced_rules) depth 40

pub check_for_non_const_reference-IsTraced :
    (filename : Text) (clean_lines : CleansedLines) (linenum : ℕ) (nesting_state : NestingState)
    → IsTraced (check_for_non_const_reference filename clean_lines linenum nesting_state error)
unfolding check_for_non_const_reference text equal error_categories
check_for_non_const_reference-IsTraced filename clean_lines linenum nesting_state =
    search (traced_rules, check_parameter-IsTraced) depth 40

pub report_address-IsTraced :
    (address : Address) (filename : Text) (linenum : ℕ)
    → IsTraced (report_address address filename linenum error)
unfolding report_address text equal error_categories
report_address-IsTraced of_cast filename linenum = search (traced_rules) depth 40
report_address-IsTraced of_dereferenced filename linenum = search (traced_rules) depth 40
report_address-IsTraced fails filename linenum = search (traced_rules) depth 40

pub check_other_casts-IsTraced :
    (filename : Text) (clean_lines : CleansedLines) (linenum : ℕ) (expecting_function : Bool)
    → IsTraced (check_other_casts filename clean_lines linenum expecting_function error)
unfolding check_other_casts text equal error_categories
check_other_casts-IsTraced filename clean_lines linenum expecting_function =
    search
      (traced_rules, report_cast-IsTraced, check_c_style_cast-IsTraced, report_address-IsTraced)
      depth 40

pub check_casts-IsTraced :
    (filename : Text) (clean_lines : CleansedLines) (linenum : ℕ)
    → IsTraced (check_casts filename clean_lines linenum error)
unfolding check_casts text equal error_categories
check_casts-IsTraced filename clean_lines linenum =
    search (traced_rules, check_other_casts-IsTraced) depth 40
