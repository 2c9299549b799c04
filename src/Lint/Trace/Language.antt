-- ===== src/Lint/Trace/Language.antt =====
-- What the checks of the language in scripts/cpplint.py can do to the globals.
use epiphany_bsp.Base.{Bool, List, suc, zero, ℕ}
use epiphany_bsp.Base.Text.{Text, equal, text}
use epiphany_bsp.Lint.Categories.{error_categories}
use epiphany_bsp.Lint.Cleanse.{CleansedLines}
use epiphany_bsp.Lint.Language.{check_code, check_integers, check_memset, check_namespaces}
use epiphany_bsp.Lint.Language.Arrays.{check_array_size, check_global_static}
use epiphany_bsp.Lint.Language.Constructs.{
  check_constructor, check_constructs, check_explicit, check_for_non_standard_constructs,
  check_formats,
}
use epiphany_bsp.Lint.Language.Functions.{
  check_default_lambda_captures, check_make_pair_uses_deduction, check_redundant_override_or_final,
  check_redundant_virtual, check_specifiers,
}
use epiphany_bsp.Lint.Language.Printf.{check_format_string, check_printf}
use epiphany_bsp.Lint.Nesting.{NestingState}
use epiphany_bsp.Lint.Report.{error}
use epiphany_bsp.Lint.Trace.Rules.{IsTraced, traced_rules, when-IsTraced, ⨾-IsTraced}
use epiphany_bsp.Lint.Trace.Casts.{check_casts-IsTraced}

pub check_format_string-IsTraced :
    (line : Text) (filename : Text) (linenum : ℕ)
    → IsTraced (check_format_string line filename linenum error)
unfolding check_format_string text equal error_categories
check_format_string-IsTraced line filename linenum = search (traced_rules) depth 40

pub check_printf-IsTraced :
    (filename : Text) (clean_lines : CleansedLines) (linenum : ℕ)
    → IsTraced (check_printf filename clean_lines linenum error)
unfolding check_printf text equal error_categories
check_printf-IsTraced filename clean_lines linenum = search (traced_rules) depth 40

pub check_array_size-IsTraced :
    (line : Text) (filename : Text) (linenum : ℕ)
    → IsTraced (check_array_size line filename linenum error)
unfolding check_array_size text equal error_categories
check_array_size-IsTraced line filename linenum = search (traced_rules) depth 40

pub check_global_static-IsTraced :
    (filename : Text) (clean_lines : CleansedLines) (linenum : ℕ)
    → IsTraced (check_global_static filename clean_lines linenum error)
unfolding check_global_static text equal error_categories
check_global_static-IsTraced filename clean_lines linenum = search (traced_rules) depth 40

pub check_formats-IsTraced :
    (line : Text) (filename : Text) (linenum : ℕ)
    → IsTraced (check_formats line filename linenum error)
unfolding check_formats text equal error_categories
check_formats-IsTraced line filename linenum = search (traced_rules) depth 40

pub check_constructs-IsTraced :
    (line : Text) (filename : Text) (linenum : ℕ)
    → IsTraced (check_constructs line filename linenum error)
unfolding check_constructs text equal error_categories
check_constructs-IsTraced line filename linenum = search (traced_rules) depth 40

pub check_explicit-IsTraced :
    (name : Text) (is_marked_explicit : Bool) (args : List Text) (filename : Text) (linenum : ℕ)
    → IsTraced (check_explicit name is_marked_explicit args filename linenum error)
unfolding check_explicit text equal error_categories
check_explicit-IsTraced name is_marked_explicit args filename linenum =
    search (traced_rules) depth 40

pub check_constructor-IsTraced :
    (line : Text) (class_name : Text) (filename : Text) (linenum : ℕ)
    → IsTraced (check_constructor line class_name filename linenum error)
unfolding check_constructor text equal error_categories
check_constructor-IsTraced line class_name filename linenum =
    search (traced_rules, check_explicit-IsTraced) depth 40

pub check_for_non_standard_constructs-IsTraced :
    (filename : Text) (clean_lines : CleansedLines) (linenum : ℕ) (nesting_state : NestingState)
    → IsTraced (check_for_non_standard_constructs filename clean_lines linenum nesting_state error)
unfolding check_for_non_standard_constructs text equal error_categories
check_for_non_standard_constructs-IsTraced filename clean_lines linenum nesting_state =
    search
      (traced_rules, check_formats-IsTraced, check_constructs-IsTraced, check_constructor-IsTraced)
      depth 40

pub check_make_pair_uses_deduction-IsTraced :
    (filename : Text) (clean_lines : CleansedLines) (linenum : ℕ)
    → IsTraced (check_make_pair_uses_deduction filename clean_lines linenum error)
unfolding check_make_pair_uses_deduction text equal error_categories
check_make_pair_uses_deduction-IsTraced filename clean_lines linenum =
    search (traced_rules) depth 40

pub check_default_lambda_captures-IsTraced :
    (filename : Text) (clean_lines : CleansedLines) (linenum : ℕ)
    → IsTraced (check_default_lambda_captures filename clean_lines linenum error)
unfolding check_default_lambda_captures text equal error_categories
check_default_lambda_captures-IsTraced filename clean_lines linenum = search (traced_rules) depth 40

pub check_specifiers-IsTraced :
    (elided : List Text) (i : ℕ) (end_col : ℕ) (n : ℕ) (filename : Text) (linenum : ℕ)
    → IsTraced (check_specifiers elided i end_col n filename linenum error)
unfolding check_specifiers text equal error_categories
check_specifiers-IsTraced elided i end_col zero filename linenum = search (traced_rules)
check_specifiers-IsTraced elided i end_col (suc n) filename linenum =
    ⨾-IsTraced _ _ (search (traced_rules) depth 40)
      (when-IsTraced _ _ (check_specifiers-IsTraced elided (suc i) 0 n filename linenum))

pub check_redundant_virtual-IsTraced :
    (filename : Text) (clean_lines : CleansedLines) (linenum : ℕ)
    → IsTraced (check_redundant_virtual filename clean_lines linenum error)
unfolding check_redundant_virtual text equal error_categories
check_redundant_virtual-IsTraced filename clean_lines linenum =
    search (traced_rules, check_specifiers-IsTraced) depth 40

pub check_redundant_override_or_final-IsTraced :
    (filename : Text) (clean_lines : CleansedLines) (linenum : ℕ)
    → IsTraced (check_redundant_override_or_final filename clean_lines linenum error)
unfolding check_redundant_override_or_final text equal error_categories
check_redundant_override_or_final-IsTraced filename clean_lines linenum =
    search (traced_rules) depth 40

pub check_integers-IsTraced :
    (line : Text) (filename : Text) (linenum : ℕ)
    → IsTraced (check_integers line filename linenum error)
unfolding check_integers text equal error_categories
check_integers-IsTraced line filename linenum = search (traced_rules) depth 40

pub check_memset-IsTraced :
    (line : Text) (filename : Text) (linenum : ℕ)
    → IsTraced (check_memset line filename linenum error)
unfolding check_memset text equal error_categories
check_memset-IsTraced line filename linenum = search (traced_rules) depth 40

pub check_namespaces-IsTraced :
    (line : Text) (file_extension : Text) (filename : Text) (linenum : ℕ)
    → IsTraced (check_namespaces line file_extension filename linenum error)
unfolding check_namespaces text equal error_categories
check_namespaces-IsTraced line file_extension filename linenum = search (traced_rules) depth 40

pub check_code-IsTraced :
    (line : Text) (filename : Text) (clean_lines : CleansedLines) (linenum : ℕ)
    (file_extension : Text)
    → IsTraced (check_code line filename clean_lines linenum file_extension error)
unfolding check_code text equal error_categories
check_code-IsTraced line filename clean_lines linenum file_extension =
    search
      (
        traced_rules, check_casts-IsTraced, check_format_string-IsTraced, check_printf-IsTraced,
        check_array_size-IsTraced, check_global_static-IsTraced, check_integers-IsTraced,
        check_memset-IsTraced, check_namespaces-IsTraced,
      )
      depth 40
