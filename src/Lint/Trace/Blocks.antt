-- ===== src/Lint/Trace/Blocks.antt =====
-- What the nesting state, the function lengths and the includes of scripts/cpplint.py can do to the globals.
use epiphany_bsp.Base.{Bool, List, [], arith, leb, suc, true, zero, ℕ, ◌/◌, ◌∷◌, ◌≡◌}
use epiphany_bsp.Base.Text.{Text, equal, text}
use epiphany_bsp.Lint.Block.{
  Block, ClassInfo, NamespaceInfo, check_disallow, check_end, check_end_class, check_end_namespace,
}
use epiphany_bsp.Lint.Categories.{error_categories}
use epiphany_bsp.Lint.Cleanse.{CleansedLines}
use epiphany_bsp.Lint.FileInfo.{FileSystem}
use epiphany_bsp.Lint.FunctionLengths.{Body, check_for_function_lengths, start_function}
use epiphany_bsp.Lint.FunctionState.{
  FunctionState, base_trigger, cap_level, check, error_level, log2,
}
use epiphany_bsp.Lint.IncludeState.{IncludeState}
use epiphany_bsp.Lint.Includes.{check_directory, check_include, check_include_line, record_include}
use epiphany_bsp.Lint.Nesting.{
  NestingState, check_completed_blocks, report_open_block, report_open_blocks,
}
use epiphany_bsp.Lint.Nesting.Update.{
  at_token, brace_or_semicolon, close_brace, consume_braces, report_access, update, update_access,
}
use epiphany_bsp.Lint.Report.{Globals, error}
use epiphany_bsp.Lint.Trace.Rules.{Trace, Trace-report, option-state-Trace}
use epiphany_bsp.Regex.{Found, group_text, match}

pub check_disallow-Trace :
    {k : Globals} (fuel : ℕ) (filename : Text) (c : ClassInfo) (elided : List Text)
    (seen_last : Bool) {g : Globals}
    → Trace k g
    → Trace k (check_disallow fuel error filename c elided seen_last g)
unfolding check_disallow text equal error_categories
check_disallow-Trace zero filename c elided seen_last t = t
check_disallow-Trace (suc n) filename c elided seen_last t =
    grind (arith, Trace-report, check_disallow-Trace n filename c elided _ t)

pub check_end_class-Trace :
    {k : Globals} (filename : Text) (clean : CleansedLines) (linenum : ℕ) (c : ClassInfo)
    {g : Globals}
    → Trace k g
    → Trace k (check_end_class error filename clean linenum c g)
unfolding check_end_class text equal error_categories
check_end_class-Trace filename clean linenum c t = grind (arith, Trace-report, check_disallow-Trace)

pub check_end_namespace-Trace :
    {k : Globals} (filename : Text) (clean : CleansedLines) (linenum : ℕ) (n : NamespaceInfo)
    {g : Globals}
    → Trace k g
    → Trace k (check_end_namespace error filename clean linenum n g)
unfolding check_end_namespace text equal error_categories
check_end_namespace-Trace filename clean linenum n t = grind (arith, Trace-report)

pub check_end-Trace :
    {k : Globals} (filename : Text) (clean : CleansedLines) (linenum : ℕ) (b : Block) {g : Globals}
    → Trace k g
    → Trace k (check_end error filename clean linenum b g)
unfolding check_end text equal error_categories
check_end-Trace filename clean linenum b t =
    grind (arith, Trace-report, check_end_class-Trace, check_end_namespace-Trace)

pub report_open_block-Trace :
    {k : Globals} (filename : Text) (b : Block) {g : Globals}
    → Trace k g
    → Trace k (report_open_block error filename b g)
unfolding report_open_block text equal error_categories
report_open_block-Trace filename b t = grind (arith, Trace-report)

pub report_open_blocks-Trace :
    {k : Globals} (filename : Text) (blocks : List Block) {g : Globals}
    → Trace k g
    → Trace k (report_open_blocks error filename blocks g)
unfolding report_open_blocks text equal error_categories
report_open_blocks-Trace filename [] t = t
report_open_blocks-Trace filename (b ∷ blocks) t =
    report_open_blocks-Trace filename blocks (report_open_block-Trace filename b t)

pub check_completed_blocks-Trace :
    {k : Globals} (filename : Text) (s : NestingState) {g : Globals}
    → Trace k g
    → Trace k (check_completed_blocks error filename s g)
unfolding check_completed_blocks text equal error_categories
check_completed_blocks-Trace filename s t = grind (arith, Trace-report, report_open_blocks-Trace)

pub report_access-Trace :
    {k : Globals} (filename : Text) (linenum : ℕ) (c : ClassInfo) (m : Found) {g : Globals}
    → Trace k g
    → Trace k (report_access error filename linenum c m g)
unfolding report_access text equal error_categories
report_access-Trace filename linenum c m t = grind (arith, Trace-report)

pub update_access-Trace :
    {k : Globals} (filename : Text) (linenum : ℕ) (line : Text) (s : NestingState) {g : Globals}
    → Trace k g
    → Trace k (update_access error filename linenum line (s, g)).1
unfolding update_access text equal error_categories
update_access-Trace filename linenum line s t = grind (arith, Trace-report, report_access-Trace)

pub close_brace-Trace :
    {k : Globals} (filename : Text) (clean : CleansedLines) (linenum : ℕ) (s : NestingState)
    {g : Globals}
    → Trace k g
    → Trace k (close_brace error filename clean linenum (s, g)).1
unfolding close_brace text equal error_categories
close_brace-Trace filename clean linenum s t = grind (arith, Trace-report, check_end-Trace)

pub at_token-Trace :
    {k : Globals} (filename : Text) (clean : CleansedLines) (linenum : ℕ) (token : Text)
    (line : Text) (s : NestingState) {g : Globals}
    → Trace k g
    → Trace k (at_token error filename clean linenum token line (s, g)).1
unfolding at_token text equal error_categories
at_token-Trace filename clean linenum token line s t =
    grind (arith, Trace-report, close_brace-Trace)

pub consume_braces-Trace :
    {k : Globals} (fuel : ℕ) (filename : Text) (clean : CleansedLines) (linenum : ℕ) (line : Text)
    (sg : NestingState × Globals)
    → Trace k sg.1
    → Trace k (consume_braces fuel error filename clean linenum line sg).1
unfolding consume_braces
consume_braces-Trace zero filename clean linenum line sg t = t
consume_braces-Trace (suc f) filename clean linenum line sg t =
    option-state-Trace (match brace_or_semicolon line) sg _ t (λ m.
      consume_braces-Trace f filename clean linenum (group_text 2 m) _
        (at_token-Trace filename clean linenum (group_text 1 m) line sg.0 t))

pub update-Trace :
    {k : Globals} (filename : Text) (clean : CleansedLines) (linenum : ℕ) (s : NestingState)
    {g : Globals}
    → Trace k g
    → Trace k (update error filename clean linenum (s, g)).1
unfolding update text equal error_categories
update-Trace filename clean linenum s t =
    consume_braces-Trace _ filename clean linenum _ _ (update_access-Trace filename linenum _ _ t)

cap_level-low : (n : ℕ) → leb (cap_level n) 5 ≡ true
unfolding cap_level
cap_level-low n = ground arith

pub check-Trace :
    {k g : Globals} (filename : Text) (linenum : ℕ) (s : FunctionState)
    → Trace k g
    → Trace k (check error filename linenum s g)
unfolding check error_level text equal error_categories
check-Trace filename linenum s t =
    grind (arith, Trace-report, cap_level-low (log2 (s.lines_in_function / base_trigger s)))

pub start_function-Trace :
    {k : Globals} (filename : Text) (linenum : ℕ) (body : Body) (s : FunctionState) {g : Globals}
    → Trace k g
    → Trace k (start_function filename linenum body error (s, g)).1
unfolding start_function text equal error_categories
start_function-Trace filename linenum body s t = grind (arith, Trace-report)

pub check_for_function_lengths-Trace :
    {k : Globals} (filename : Text) (clean_lines : CleansedLines) (linenum : ℕ) (s : FunctionState)
    {g : Globals}
    → Trace k g
    → Trace k (check_for_function_lengths filename clean_lines linenum error (s, g)).1
unfolding check_for_function_lengths text equal error_categories
check_for_function_lengths-Trace filename clean_lines linenum s t =
    grind (arith, Trace-report, check-Trace, start_function-Trace)

pub check_directory-Trace :
    {k : Globals} (line : Text) (filename : Text) (linenum : ℕ) {g : Globals}
    → Trace k g
    → Trace k (check_directory line filename linenum error g)
unfolding check_directory text equal error_categories
check_directory-Trace line filename linenum t = grind (arith, Trace-report)

pub record_include-Trace :
    {k : Globals} (fs : FileSystem) (to_lower : Text → Text) (filename : Text)
    (clean_lines : CleansedLines) (linenum : ℕ) (include : Text) (is_system : Bool)
    (s : IncludeState) {g : Globals}
    → Trace k g
    → Trace k
        (record_include fs to_lower filename clean_lines linenum include is_system error (s, g)).1
unfolding record_include text equal error_categories
record_include-Trace fs to_lower filename clean_lines linenum include is_system s t =
    grind (arith, Trace-report)

pub check_include-Trace :
    {k : Globals} (fs : FileSystem) (to_lower : Text → Text) (filename : Text)
    (clean_lines : CleansedLines) (linenum : ℕ) (include : Text) (is_system : Bool)
    (s : IncludeState) {g : Globals}
    → Trace k g
    → Trace k
        (check_include fs to_lower filename clean_lines linenum include is_system error (s, g)).1
unfolding check_include text equal error_categories
check_include-Trace fs to_lower filename clean_lines linenum include is_system s t =
    grind (arith, Trace-report, record_include-Trace)

pub check_include_line-Trace :
    {k : Globals} (fs : FileSystem) (to_lower : Text → Text) (filename : Text)
    (clean_lines : CleansedLines) (linenum : ℕ) (s : IncludeState) {g : Globals}
    → Trace k g
    → Trace k (check_include_line fs to_lower filename clean_lines linenum error (s, g)).1
unfolding check_include_line text equal error_categories
check_include_line-Trace fs to_lower filename clean_lines linenum s t =
    grind (arith, Trace-report, check_directory-Trace, check_include-Trace)
