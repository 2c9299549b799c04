-- ===== src/Lint/Trace/Files.antt =====
-- What the checks of a whole file in scripts/cpplint.py can do to the globals.
use epiphany_bsp.Base.{
  Bool, List, Option, [], arith, if◌then◌else◌, leb, refl, suc, true, zero, ℕ, ◌+◌, ◌∷◌, ◌≡◌,
}
use epiphany_bsp.Base.Text.{Text, equal, text}
use epiphany_bsp.Lint.Categories.{error_categories}
use epiphany_bsp.Lint.Cleanse.{CleansedLines}
use epiphany_bsp.Lint.Cleanse.MultiLine.{
  find_next_multi_line_comment_end, find_next_multi_line_comment_start, remove_from,
  remove_multi_line_comments, remove_multi_line_comments_from_range,
}
use epiphany_bsp.Lint.FileChecks.{
  check_characters, check_characters_from, check_for_bad_characters, check_for_copyright,
  check_for_multiline_comments_and_strings, check_for_newline_at_eof, check_header_file_included,
}
use epiphany_bsp.Lint.FileInfo.{FileSystem}
use epiphany_bsp.Lint.HeaderGuard.{
  GuardLines, check_endif, check_for_header_guard, check_guard, check_style, warn_underscore,
}
use epiphany_bsp.Lint.IncludeState.{IncludeState}
use epiphany_bsp.Lint.Report.{Globals, error}
use epiphany_bsp.Lint.Trace.Rules.{Trace, Trace-report, if-Trace, parse_nolint_suppressions-Trace}
use epiphany_bsp.Regex.{Found}

pub check_for_copyright-Trace :
    {k : Globals} (filename : Text) (lines : List Text) {g : Globals}
    → Trace k g
    → Trace k (check_for_copyright filename lines error g)
unfolding check_for_copyright text equal error_categories
check_for_copyright-Trace filename lines t = grind (arith, Trace-report)

pub check_characters-Trace :
    {k : Globals} (filename : Text) (linenum : ℕ) (line : Text) {g : Globals}
    → Trace k g
    → Trace k (check_characters filename linenum line error g)
unfolding check_characters text equal error_categories
check_characters-Trace filename linenum line t = grind (arith, Trace-report)

pub check_characters_from-Trace :
    {k : Globals} (filename : Text) (linenum : ℕ) (lines : List Text) {g : Globals}
    → Trace k g
    → Trace k (check_characters_from filename linenum lines error g)
unfolding check_characters_from text equal error_categories
check_characters_from-Trace filename linenum [] t = t
check_characters_from-Trace filename linenum (line ∷ lines) t =
    check_characters_from-Trace filename (suc linenum) lines
      (check_characters-Trace filename linenum line t)

pub check_for_bad_characters-Trace :
    {k : Globals} (filename : Text) (lines : List Text) {g : Globals}
    → Trace k g
    → Trace k (check_for_bad_characters filename lines error g)
unfolding check_for_bad_characters text equal error_categories
check_for_bad_characters-Trace filename lines t =
    grind (arith, Trace-report, check_characters_from-Trace)

pub check_for_newline_at_eof-Trace :
    {k : Globals} (filename : Text) (lines : List Text) {g : Globals}
    → Trace k g
    → Trace k (check_for_newline_at_eof filename lines error g)
unfolding check_for_newline_at_eof text equal error_categories
check_for_newline_at_eof-Trace filename lines t = grind (arith, Trace-report)

pub check_for_multiline_comments_and_strings-Trace :
    {k : Globals} (filename : Text) (clean_lines : CleansedLines) (linenum : ℕ) {g : Globals}
    → Trace k g
    → Trace k (check_for_multiline_comments_and_strings filename clean_lines linenum error g)
unfolding check_for_multiline_comments_and_strings text equal error_categories
check_for_multiline_comments_and_strings-Trace filename clean_lines linenum t =
    grind (arith, Trace-report)

pub check_header_file_included-Trace :
    {k : Globals} (fs : FileSystem) (filename : Text) (include_state : IncludeState) {g : Globals}
    → Trace k g
    → Trace k (check_header_file_included fs filename include_state error g)
unfolding check_header_file_included text equal error_categories
check_header_file_included-Trace fs filename include_state t = grind (arith, Trace-report)

pub warn_underscore-Trace :
    {k : Globals} (filename : Text) (linenum : ℕ) (message : Text) (m : Found) {g : Globals}
    → Trace k g
    → Trace k (warn_underscore filename linenum message m error g)
unfolding warn_underscore text equal error_categories
warn_underscore-Trace filename linenum message m t = grind (arith, Trace-report)

pub check_endif-Trace :
    {k : Globals} (filename : Text) (raw_lines : List Text) (cppvar : Text) (s : GuardLines)
    {g : Globals}
    → Trace k g
    → Trace k (check_endif filename raw_lines cppvar s error g)
unfolding check_endif text equal error_categories
check_endif-Trace filename raw_lines cppvar s t = grind (arith, Trace-report, warn_underscore-Trace)

low_or_high : (b : Bool) → leb (if b then 0 else 5) 5 ≡ true
low_or_high b = ground arith

pub check_style-Trace :
    {k : Globals} (filename : Text) (raw_lines : List Text) (cppvar : Text) (s : GuardLines)
    {g : Globals}
    → Trace k g
    → Trace k (check_style filename raw_lines cppvar s error g)
unfolding check_style text equal error_categories
check_style-Trace filename raw_lines cppvar s t =
    if-Trace _ t
      (Trace-report _ _ _ _ _ refl (low_or_high _) (parse_nolint_suppressions-Trace _ _ _ t))

pub check_guard-Trace :
    {k : Globals} (filename : Text) (raw_lines : List Text) (cppvar : Text) (s : GuardLines)
    {g : Globals}
    → Trace k g
    → Trace k (check_guard filename raw_lines cppvar s error g)
unfolding check_guard text equal error_categories
check_guard-Trace filename raw_lines cppvar s t =
    if-Trace _
      (check_endif-Trace filename raw_lines cppvar s
        (parse_nolint_suppressions-Trace _ _ _ (check_style-Trace filename raw_lines cppvar s t)))
      (Trace-report _ _ _ _ _ refl refl t)

pub check_for_header_guard-Trace :
    {k : Globals} (fs : FileSystem) (root : Option Text) (filename : Text)
    (clean_lines : CleansedLines) {g : Globals}
    → Trace k g
    → Trace k (check_for_header_guard fs root filename clean_lines error g)
unfolding check_for_header_guard text equal error_categories
check_for_header_guard-Trace fs root filename clean_lines t =
    grind (arith, Trace-report, check_guard-Trace)

pub remove_from-Trace :
    {k : Globals} (fuel : ℕ) (filename : Text) (lineix : ℕ) (lines : List Text) {g : Globals}
    → Trace k g
    → Trace k (remove_from fuel filename error lineix lines g).1
unfolding remove_from text equal error_categories
remove_from-Trace zero filename lineix lines t = t
remove_from-Trace (suc f) filename lineix lines t = grind (
  arith,
  Trace-report,
  remove_from-Trace f filename
      (find_next_multi_line_comment_end lines (find_next_multi_line_comment_start lines lineix) + 1)
      (remove_multi_line_comments_from_range lines (find_next_multi_line_comment_start lines lineix)
        (find_next_multi_line_comment_end lines (find_next_multi_line_comment_start lines lineix)
          + 1))
      t,
)

pub remove_multi_line_comments-Trace :
    {k : Globals} (filename : Text) (lines : List Text) {g : Globals}
    → Trace k g
    → Trace k (remove_multi_line_comments filename lines error g).1
unfolding remove_multi_line_comments text equal error_categories
remove_multi_line_comments-Trace filename lines t = grind (arith, Trace-report, remove_from-Trace)
