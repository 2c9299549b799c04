-- ===== src/Lint/Trace/Run.antt =====
-- What `ProcessLine` and `ProcessFileData` of scripts/cpplint.py can do to the globals.
use epiphany_bsp.Base.{ℕ, zero, suc, Bool, true, false, Option, List, if◌then◌else◌}
use epiphany_bsp.Base.Text.{Text, text, equal}
use epiphany_bsp.Regex.{is_nil, occurs}
use epiphany_bsp.Lint.Categories.{error_categories}
use epiphany_bsp.Lint.Cleanse.{CleansedLines}
use epiphany_bsp.Lint.FileInfo.{FileSystem}
use epiphany_bsp.Lint.IncludeState.{IncludeState}
use epiphany_bsp.Lint.Nesting.{NestingState, in_asm_block}
use epiphany_bsp.Lint.Includes.{include_line}
use epiphany_bsp.Lint.Steps.{line_at}
use epiphany_bsp.Lint.Report.{Globals, error, reset_suppressions}
use epiphany_bsp.Lint.Style.Width.{Settings}
use epiphany_bsp.Lint.Language.{check_language}
use epiphany_bsp.Lint.IncludeWhatYouUse.{report_missing, check_for_include_what_you_use}
use epiphany_bsp.Lint.Driver.Lines.{FileState, check_rest, check_line, enter_line, process_line}
use epiphany_bsp.Lint.Driver.Data.{process_lines, finish_file, process_file_data}
use epiphany_bsp.Lint.Trace.Rules.{
  Trace, IsTraced, suppress, traced_rules, if-Trace, Trace-action, parse_nolint_suppressions-Trace,
}
use epiphany_bsp.Lint.Trace.Lines.{
  check_vlog_arguments-IsTraced, check_posix_threading-IsTraced, check_invalid_increment-IsTraced,
  check_for_namespace_indentation-Trace, flag_cxx11_features-Trace,
}
use epiphany_bsp.Lint.Trace.Files.{
  check_for_copyright-Trace, remove_multi_line_comments-Trace, check_for_header_guard-Trace,
  check_header_file_included-Trace, check_for_newline_at_eof-Trace, check_for_bad_characters-Trace,
  check_for_multiline_comments_and_strings-Trace,
}
use epiphany_bsp.Lint.Trace.Blocks.{
  update-Trace, check_for_function_lengths-Trace, check_include_line-Trace,
  check_completed_blocks-Trace,
}
use epiphany_bsp.Lint.Trace.Style.{check_style-IsTraced}
use epiphany_bsp.Lint.Trace.Casts.{check_for_non_const_reference-IsTraced}
use epiphany_bsp.Lint.Trace.Language.{
  check_code-IsTraced, check_for_non_standard_constructs-IsTraced,
  check_make_pair_uses_deduction-IsTraced, check_default_lambda_captures-IsTraced,
  check_redundant_virtual-IsTraced, check_redundant_override_or_final-IsTraced,
}

check_rest-IsTraced :
    (filename : Text) (clean_lines : CleansedLines) (line : ℕ) (nesting_state : NestingState)
    → IsTraced (check_rest filename clean_lines line nesting_state error)
unfolding check_rest
check_rest-IsTraced filename clean_lines line nesting_state =
    search
      (
        traced_rules, check_for_non_const_reference-IsTraced,
        check_for_non_standard_constructs-IsTraced, check_vlog_arguments-IsTraced,
        check_posix_threading-IsTraced, check_invalid_increment-IsTraced,
        check_make_pair_uses_deduction-IsTraced, check_default_lambda_captures-IsTraced,
        check_redundant_virtual-IsTraced, check_redundant_override_or_final-IsTraced,
      )
      depth 40

report_missing-IsTraced :
    (includes : List Text) (filename : Text) (row : Text × (ℕ × Text))
    → IsTraced (report_missing includes filename error row)
unfolding report_missing text equal error_categories
report_missing-IsTraced includes filename (header, (linenum, template)) =
    search (traced_rules) depth 40

check_for_include_what_you_use-IsTraced :
    (fs : FileSystem) (read_lines : Text → Option (List Text)) (filename : Text)
    (clean_lines : CleansedLines) (include_state : IncludeState)
    → IsTraced
        (check_for_include_what_you_use fs read_lines filename clean_lines include_state error)
unfolding check_for_include_what_you_use
check_for_include_what_you_use-IsTraced fs read_lines filename clean_lines include_state =
    search (traced_rules, report_missing-IsTraced) depth 40

module _ {k : Globals} where
  if-state-Trace {ℓ} :
      {S : Type ℓ} (b : Bool) (x y : S × Globals)
      → Trace k x.1
      → Trace k y.1
      → Trace k (if b then x else y).1
  if-state-Trace true x y t u = t
  if-state-Trace false x y t u = u

  check_language-Trace :
      (fs : FileSystem) (to_lower : Text → Text) (filename : Text) (clean_lines : CleansedLines)
      (linenum : ℕ) (file_extension : Text) (s : IncludeState) {g : Globals}
      → Trace k g
      → Trace k
          (check_language fs to_lower filename clean_lines linenum file_extension error (s, g)).1
  unfolding check_language
  check_language-Trace fs to_lower filename clean_lines linenum file_extension s t =
      let line = line_at clean_lines.elided linenum in
      if-state-Trace {S = IncludeState} (is_nil line) _ _ t (
        if-state-Trace {S = IncludeState} (occurs include_line line) _ _
          (check_include_line-Trace fs to_lower filename clean_lines linenum s t)
          (Trace-action _ (check_code-IsTraced line filename clean_lines linenum file_extension) t))

  module _ (settings : Settings) (filename file_extension : Text)
      (clean_lines : CleansedLines) where
    check_line-Trace :
        (line : ℕ) (s : FileState) {g : Globals}
        → Trace k g
        → Trace k (check_line settings filename file_extension clean_lines line error (s, g)).1
    unfolding check_line
    check_line-Trace line s t =
        Trace-action _ (check_rest-IsTraced filename clean_lines line s.nesting_state) (
          check_language-Trace settings.file_system settings.unicode.lower filename clean_lines line
            file_extension _
            (Trace-action _
              (check_style-IsTraced settings filename clean_lines line file_extension
                s.nesting_state)
              (check_for_multiline_comments_and_strings-Trace filename clean_lines line
                (check_for_function_lengths-Trace filename clean_lines line s.function_state t))))

    enter_line-Trace :
        (line : ℕ) (s : FileState) {g : Globals}
        → Trace k g
        → Trace k (enter_line filename clean_lines line error (s, g)).1
    unfolding enter_line
    enter_line-Trace line s t = check_for_namespace_indentation-Trace filename _ clean_lines line (
        update-Trace filename clean_lines line s.nesting_state
          (parse_nolint_suppressions-Trace filename _ line t))

    process_line-Trace :
        (line : ℕ) (s : FileState) {g : Globals}
        → Trace k g
        → Trace k (process_line settings filename file_extension clean_lines line error (s, g)).1
    unfolding process_line
    process_line-Trace line s {g = g} t =
        let s1 = (enter_line filename clean_lines line error (s, g)).0 in
        if-state-Trace {S = FileState} (in_asm_block s1.nesting_state) _ _
          (enter_line-Trace line s t) (check_line-Trace line s1 (enter_line-Trace line s t))

    process_lines-Trace :
        (line n : ℕ) (s : FileState) {g : Globals}
        → Trace k g
        → Trace k (process_lines settings filename file_extension clean_lines line n error (s, g)).1
    unfolding process_lines
    process_lines-Trace line zero s t = t
    process_lines-Trace line (suc n) s t =
        process_lines-Trace (suc line) n _
          (flag_cxx11_features-Trace filename clean_lines line (process_line-Trace line s t))

    finish_file-Trace :
        (read_lines : Text → Option (List Text)) (lines : List Text) (s : FileState) {g : Globals}
        → Trace k g
        → Trace k
            (finish_file settings read_lines filename file_extension clean_lines lines error (s, g))
    unfolding finish_file
    finish_file-Trace read_lines lines s t =
        let before =
          Trace-action _
            (check_for_include_what_you_use-IsTraced settings.file_system read_lines filename
              clean_lines s.include_state)
            (check_completed_blocks-Trace filename s.nesting_state t) in
        check_for_newline_at_eof-Trace filename lines (
          check_for_bad_characters-Trace filename lines (
            if-Trace _
              (check_header_file_included-Trace settings.file_system filename s.include_state
                before)
              before))

-- A run of `ProcessFileData` only takes such steps.
pub process_file_data-Trace :
    (settings : Settings) (read_lines : Text → Option (List Text)) (filename file_extension : Text)
    (file_lines : List Text) (g : Globals)
    → Trace g (process_file_data settings read_lines filename file_extension file_lines error g)
unfolding process_file_data reset_suppressions
process_file_data-Trace settings read_lines filename file_extension file_lines g =
    let before =
      remove_multi_line_comments-Trace filename _
        (check_for_copyright-Trace filename _ (suppress _)) in
    finish_file-Trace settings filename file_extension _ read_lines _ _ (
      process_lines-Trace settings filename file_extension _ 0 _ _ (
        if-Trace _
          (check_for_header_guard-Trace settings.file_system settings.root filename _ before)
          before))
