-- ===== src/Lint/Trace/Lines.antt =====
-- What the checks of a line in scripts/cpplint.py that keep no state can do to the globals.
use Prim.Native.String.{String}
use epiphany_bsp.Base.{Bool, List, [], arith, drop, refl, ℕ, ◌∷◌}
use epiphany_bsp.Base.Text.{Text, equal, text}
use epiphany_bsp.Lint.Categories.{error_categories}
use epiphany_bsp.Lint.Cleanse.{CleansedLines}
use epiphany_bsp.Lint.CommentStyle.{check_comment, check_comment_at, check_todo, todo_pattern}
use epiphany_bsp.Lint.LineChecks.{
  check_invalid_increment, check_posix_threading, check_threading_list, check_vlog_arguments,
  flag_cxx11_features, flag_header, flag_name,
}
use epiphany_bsp.Lint.NamespaceIndent.{
  check_for_namespace_indentation, check_item_indentation_in_namespace,
}
use epiphany_bsp.Lint.Nesting.{NestingState}
use epiphany_bsp.Lint.Report.{Globals, error}
use epiphany_bsp.Lint.Trace.Rules.{IsTraced, Trace, Trace-report, done, if-Trace, option-Trace}
use epiphany_bsp.Regex.{Found, match}

pub check_threading_list-Trace :
    {k : Globals} (rows : List (String × Bool)) (filename : Text) (line : Text) (linenum : ℕ)
    {g : Globals}
    → Trace k g
    → Trace k (check_threading_list rows filename line linenum error g)
unfolding check_threading_list text equal error_categories
check_threading_list-Trace [] filename line linenum t = t
check_threading_list-Trace ((name, b) ∷ rows) filename line linenum t =
    check_threading_list-Trace rows filename line linenum
      (if-Trace _ (Trace-report _ _ _ _ _ refl refl t) t)

pub check_posix_threading-Trace :
    {k : Globals} (filename : Text) (clean_lines : CleansedLines) (linenum : ℕ) {g : Globals}
    → Trace k g
    → Trace k (check_posix_threading filename clean_lines linenum error g)
unfolding check_posix_threading text equal error_categories
check_posix_threading-Trace filename clean_lines linenum t =
    grind (arith, Trace-report, check_threading_list-Trace)

pub check_vlog_arguments-Trace :
    {k : Globals} (filename : Text) (clean_lines : CleansedLines) (linenum : ℕ) {g : Globals}
    → Trace k g
    → Trace k (check_vlog_arguments filename clean_lines linenum error g)
unfolding check_vlog_arguments text equal error_categories
check_vlog_arguments-Trace filename clean_lines linenum t = grind (arith, Trace-report)

pub check_invalid_increment-Trace :
    {k : Globals} (filename : Text) (clean_lines : CleansedLines) (linenum : ℕ) {g : Globals}
    → Trace k g
    → Trace k (check_invalid_increment filename clean_lines linenum error g)
unfolding check_invalid_increment text equal error_categories
check_invalid_increment-Trace filename clean_lines linenum t = grind (arith, Trace-report)

pub flag_header-Trace :
    {k : Globals} (filename : Text) (line : Text) (linenum : ℕ) {g : Globals}
    → Trace k g
    → Trace k (flag_header filename line linenum error g)
unfolding flag_header text equal error_categories
flag_header-Trace filename line linenum t = grind (arith, Trace-report)

pub flag_name-Trace :
    {k : Globals} (filename : Text) (line : Text) (linenum : ℕ) (top_name : String) {g : Globals}
    → Trace k g
    → Trace k (flag_name filename line linenum error top_name g)
unfolding flag_name text equal error_categories
flag_name-Trace filename line linenum top_name t = grind (arith, Trace-report)

pub flag_cxx11_features-Trace :
    {k : Globals} (filename : Text) (clean_lines : CleansedLines) (linenum : ℕ) {g : Globals}
    → Trace k g
    → Trace k (flag_cxx11_features filename clean_lines linenum error g)
unfolding flag_cxx11_features text equal error_categories
flag_cxx11_features-Trace filename clean_lines linenum t =
    grind (arith, Trace-report, flag_header-Trace, flag_name-Trace)

pub check_todo-Trace :
    {k : Globals} (m : Found) (filename : Text) (linenum : ℕ) {g : Globals}
    → Trace k g
    → Trace k (check_todo m filename linenum error g)
unfolding check_todo text equal error_categories
check_todo-Trace m filename linenum t = grind (arith, Trace-report)

pub check_comment_at-Trace :
    {k : Globals} (commentpos : ℕ) (line : Text) (filename : Text) (linenum : ℕ)
    (next_line_start : ℕ) {g : Globals}
    → Trace k g
    → Trace k (check_comment_at commentpos line filename linenum next_line_start error g)
unfolding check_comment_at text equal error_categories
check_comment_at-Trace commentpos line filename linenum next_line_start t =
    let first = if-Trace _ (Trace-report _ _ _ _ _ refl refl t) t in
    let second =
      option-Trace (match todo_pattern (drop commentpos line)) _ _ first
        (λ m. check_todo-Trace m filename linenum first) in
    if-Trace _ (Trace-report _ _ _ _ _ refl refl second) second

pub check_comment-Trace :
    {k : Globals} (line : Text) (filename : Text) (linenum : ℕ) (next_line_start : ℕ) {g : Globals}
    → Trace k g
    → Trace k (check_comment line filename linenum next_line_start error g)
unfolding check_comment text equal error_categories
check_comment-Trace line filename linenum next_line_start t =
    grind (arith, Trace-report, check_comment_at-Trace)

pub check_item_indentation_in_namespace-Trace :
    {k : Globals} (filename : Text) (lines : List Text) (linenum : ℕ) {g : Globals}
    → Trace k g
    → Trace k (check_item_indentation_in_namespace filename lines linenum error g)
unfolding check_item_indentation_in_namespace text equal error_categories
check_item_indentation_in_namespace-Trace filename lines linenum t = grind (arith, Trace-report)

pub check_for_namespace_indentation-Trace :
    {k : Globals} (filename : Text) (nesting_state : NestingState) (clean_lines : CleansedLines)
    (line : ℕ) {g : Globals}
    → Trace k g
    → Trace k (check_for_namespace_indentation filename nesting_state clean_lines line error g)
unfolding check_for_namespace_indentation text equal error_categories
check_for_namespace_indentation-Trace filename nesting_state clean_lines line t =
    grind (arith, Trace-report, check_item_indentation_in_namespace-Trace)

pub check_comment-IsTraced :
    (line filename : Text) (linenum next_line_start : ℕ)
    → IsTraced (check_comment line filename linenum next_line_start error)
check_comment-IsTraced line filename linenum next_line_start = record {
  at = λ g. check_comment-Trace line filename linenum next_line_start done;
}

pub check_vlog_arguments-IsTraced :
    (filename : Text) (clean_lines : CleansedLines) (linenum : ℕ)
    → IsTraced (check_vlog_arguments filename clean_lines linenum error)
check_vlog_arguments-IsTraced filename clean_lines linenum = record {
  at = λ g. check_vlog_arguments-Trace filename clean_lines linenum done;
}

pub check_posix_threading-IsTraced :
    (filename : Text) (clean_lines : CleansedLines) (linenum : ℕ)
    → IsTraced (check_posix_threading filename clean_lines linenum error)
check_posix_threading-IsTraced filename clean_lines linenum = record {
  at = λ g. check_posix_threading-Trace filename clean_lines linenum done;
}

pub check_invalid_increment-IsTraced :
    (filename : Text) (clean_lines : CleansedLines) (linenum : ℕ)
    → IsTraced (check_invalid_increment filename clean_lines linenum error)
check_invalid_increment-IsTraced filename clean_lines linenum = record {
  at = λ g. check_invalid_increment-Trace filename clean_lines linenum done;
}
