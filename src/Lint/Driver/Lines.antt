-- ===== src/Lint/Driver/Lines.antt =====
-- `ProcessLine` of scripts/cpplint.py: what a line does to the states of the file's checks, and which
-- checks it is given to. There are no extra check functions.
use epiphany_bsp.Base.{if◌then◌else◌, ℕ}
use epiphany_bsp.Base.Text.{Text}
use epiphany_bsp.Lint.Casts.References.{check_for_non_const_reference}
use epiphany_bsp.Lint.Cleanse.{CleansedLines}
use epiphany_bsp.Lint.FileChecks.{check_for_multiline_comments_and_strings}
use epiphany_bsp.Lint.FunctionLengths.{check_for_function_lengths}
use epiphany_bsp.Lint.FunctionState.{FunctionState}
use epiphany_bsp.Lint.IncludeState.{IncludeState}
use epiphany_bsp.Lint.Language.{check_language}
use epiphany_bsp.Lint.Language.Constructs.{check_for_non_standard_constructs}
use epiphany_bsp.Lint.Language.Functions.{
  check_default_lambda_captures, check_make_pair_uses_deduction, check_redundant_override_or_final,
  check_redundant_virtual,
}
use epiphany_bsp.Lint.LineChecks.{
  check_invalid_increment, check_posix_threading, check_vlog_arguments,
}
use epiphany_bsp.Lint.NamespaceIndent.{check_for_namespace_indentation}
use epiphany_bsp.Lint.Nesting.{NestingState, in_asm_block}
use epiphany_bsp.Lint.Nesting.Update.{update}
use epiphany_bsp.Lint.Report.{Globals, Handler, parse_nolint_suppressions}
use epiphany_bsp.Lint.Steps.{Action, line_at, ◌⨾◌}
use epiphany_bsp.Lint.Style.{check_style}
use epiphany_bsp.Lint.Style.Width.{Settings}

pub record FileState : Type 0 where
  pub include_state : IncludeState
  pub function_state : FunctionState
  pub nesting_state : NestingState

-- the checks behind those of the language, which keep no state
unfoldable pub check_rest : Text → CleansedLines → ℕ → NestingState → Handler → Action
check_rest filename clean_lines line nesting_state error =
    check_for_non_const_reference filename clean_lines line nesting_state error
    ⨾ check_for_non_standard_constructs filename clean_lines line nesting_state error
    ⨾ check_vlog_arguments filename clean_lines line error
    ⨾ check_posix_threading filename clean_lines line error
    ⨾ check_invalid_increment filename clean_lines line error
    ⨾ check_make_pair_uses_deduction filename clean_lines line error
    ⨾ check_default_lambda_captures filename clean_lines line error
    ⨾ check_redundant_virtual filename clean_lines line error
    ⨾ check_redundant_override_or_final filename clean_lines line error

-- what a line outside a block of assembler is given to
unfoldable pub check_line :
    Settings → Text → Text → CleansedLines → ℕ → Handler → FileState × Globals → FileState × Globals
check_line settings filename file_extension clean_lines line error (s, g) =
    let nesting_state = s.nesting_state in
    let (functions, g1) =
      check_for_function_lengths filename clean_lines line error (s.function_state, g) in
    let g2 = check_for_multiline_comments_and_strings filename clean_lines line error g1 in
    let g3 = check_style settings filename clean_lines line file_extension nesting_state error g2 in
    let (includes, g4) =
      check_language settings.file_system settings.unicode.lower filename clean_lines line
        file_extension error (s.include_state, g3) in
    (
      record s { include_state = includes; function_state = functions },
      check_rest filename clean_lines line nesting_state error g4,
    )

-- the NOLINT comment and the nesting come first, as the checks ask for both
unfoldable pub enter_line :
    Text → CleansedLines → ℕ → Handler → FileState × Globals → FileState × Globals
enter_line filename clean_lines line error (s, g) =
    let g1 = parse_nolint_suppressions filename (line_at clean_lines.raw_lines line) line error g in
    let (nesting_state, g2) = update error filename clean_lines line (s.nesting_state, g1) in
    (
      record s { nesting_state = nesting_state },
      check_for_namespace_indentation filename nesting_state clean_lines line error g2,
    )

unfoldable pub process_line :
    Settings → Text → Text → CleansedLines → ℕ → Handler → FileState × Globals → FileState × Globals
process_line settings filename file_extension clean_lines line error (s, g) =
    let (s1, g1) = enter_line filename clean_lines line error (s, g) in
    if in_asm_block s1.nesting_state
    then (s1, g1)
    else check_line settings filename file_extension clean_lines line error (s1, g1)
