-- ===== src/Lint/Trace/Braces.antt =====
-- What the checks of braces and bodies in scripts/cpplint.py can do to the globals.
use epiphany_bsp.Base.{List, ℕ}
use epiphany_bsp.Base.Text.{Text, equal, text}
use epiphany_bsp.Lint.Braces.{check_braces, check_else_braces, check_else_place, check_open_brace}
use epiphany_bsp.Lint.Braces.Bodies.{
  check_bodies, check_empty_block_body, check_next_line, check_statement_end,
}
use epiphany_bsp.Lint.Braces.Semicolon.{check_trailing_semicolon}
use epiphany_bsp.Lint.Categories.{error_categories}
use epiphany_bsp.Lint.Cleanse.{CleansedLines}
use epiphany_bsp.Lint.Report.{error}
use epiphany_bsp.Lint.Trace.Rules.{IsTraced, traced_rules}

pub check_next_line-IsTraced :
    (line : Text) (elided : List Text) (endlinenum : ℕ) (filename : Text) (linenum : ℕ)
    → IsTraced (check_next_line line elided endlinenum filename linenum error)
unfolding check_next_line text equal error_categories
check_next_line-IsTraced line elided endlinenum filename linenum = search (traced_rules) depth 40

pub check_statement_end-IsTraced :
    (line : Text) (elided : List Text) (endlinenum : ℕ) (filename : Text) (linenum : ℕ)
    → IsTraced (check_statement_end line elided endlinenum filename linenum error)
unfolding check_statement_end text equal error_categories
check_statement_end-IsTraced line elided endlinenum filename linenum =
    search (traced_rules, check_next_line-IsTraced) depth 40

pub check_bodies-IsTraced :
    (line : Text) (elided : List Text) (filename : Text) (linenum : ℕ)
    → IsTraced (check_bodies line elided filename linenum error)
unfolding check_bodies text equal error_categories
check_bodies-IsTraced line elided filename linenum =
    search (traced_rules, check_statement_end-IsTraced) depth 40

pub check_empty_block_body-IsTraced :
    (filename : Text) (clean_lines : CleansedLines) (linenum : ℕ)
    → IsTraced (check_empty_block_body filename clean_lines linenum error)
unfolding check_empty_block_body text equal error_categories
check_empty_block_body-IsTraced filename clean_lines linenum = search (traced_rules) depth 40

pub check_trailing_semicolon-IsTraced :
    (filename : Text) (clean_lines : CleansedLines) (linenum : ℕ)
    → IsTraced (check_trailing_semicolon filename clean_lines linenum error)
unfolding check_trailing_semicolon text equal error_categories
check_trailing_semicolon-IsTraced filename clean_lines linenum = search (traced_rules) depth 40

pub check_open_brace-IsTraced :
    (line : Text) (elided : List Text) (filename : Text) (linenum : ℕ)
    → IsTraced (check_open_brace line elided filename linenum error)
unfolding check_open_brace text equal error_categories
check_open_brace-IsTraced line elided filename linenum = search (traced_rules) depth 40

pub check_else_place-IsTraced :
    (line : Text) (elided : List Text) (filename : Text) (linenum : ℕ)
    → IsTraced (check_else_place line elided filename linenum error)
unfolding check_else_place text equal error_categories
check_else_place-IsTraced line elided filename linenum = search (traced_rules) depth 40

pub check_else_braces-IsTraced :
    (line : Text) (elided : List Text) (filename : Text) (linenum : ℕ)
    → IsTraced (check_else_braces line elided filename linenum error)
unfolding check_else_braces text equal error_categories
check_else_braces-IsTraced line elided filename linenum = search (traced_rules) depth 40

pub check_braces-IsTraced :
    (filename : Text) (clean_lines : CleansedLines) (linenum : ℕ)
    → IsTraced (check_braces filename clean_lines linenum error)
unfolding check_braces text equal error_categories
check_braces-IsTraced filename clean_lines linenum =
    search
      (
        traced_rules, check_bodies-IsTraced, check_open_brace-IsTraced, check_else_place-IsTraced,
        check_else_braces-IsTraced,
      )
      depth 40
