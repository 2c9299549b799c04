-- ===== src/Lint/Driver/Data.antt =====
-- `ProcessFileData` of scripts/cpplint.py: the checks of a file whose lines have been read.
use epiphany_bsp.Base.{List, Option, [], if◌then◌else◌, suc, zero, ℕ, ◌++◌, ◌∷◌}
use epiphany_bsp.Base.Text.{Text, equal, text}
use epiphany_bsp.Lint.Cleanse.{CleansedLines, cleansed_lines}
use epiphany_bsp.Lint.Cleanse.MultiLine.{remove_multi_line_comments}
use epiphany_bsp.Lint.Driver.Lines.{FileState, process_line}
use epiphany_bsp.Lint.FileChecks.{
  check_for_bad_characters, check_for_copyright, check_for_newline_at_eof,
  check_header_file_included,
}
use epiphany_bsp.Lint.HeaderGuard.{check_for_header_guard}
use epiphany_bsp.Lint.IncludeWhatYouUse.{check_for_include_what_you_use}
use epiphany_bsp.Lint.LineChecks.{flag_cxx11_features}
use epiphany_bsp.Lint.Nesting.{check_completed_blocks}
use epiphany_bsp.Lint.Report.{Globals, Handler, reset_suppressions}
use epiphany_bsp.Lint.Steps.{Action}
use epiphany_bsp.Lint.Style.Width.{Settings}
use epiphany_bsp.Lint.IncludeState.{initial as no_includes}
use epiphany_bsp.Lint.FunctionState.{initial as no_function}
use epiphany_bsp.Lint.Nesting.{initial as no_blocks}

-- so many lines, from a number on
unfoldable pub process_lines :
    Settings
    → Text
    → Text
    → CleansedLines
    → ℕ
    → ℕ
    → Handler
    → FileState × Globals
    → FileState × Globals
process_lines settings filename file_extension clean_lines line zero error (s, g) = (s, g)
process_lines settings filename file_extension clean_lines line (suc n) error (s, g) =
    let (s1, g1) = process_line settings filename file_extension clean_lines line error (s, g) in
    process_lines settings filename file_extension clean_lines (suc line) n error
      (s1, flag_cxx11_features filename clean_lines line error g1)

unfoldable pub with_markers : List Text → List Text
with_markers lines =
    (text "// marker so line numbers and indices both start at 1") ∷ lines
    ++ (text "// marker so line numbers end in a known way") ∷ []

abbrev pub new_file : FileState
new_file = record {
  include_state = no_includes;
  function_state = no_function;
  nesting_state = no_blocks;
}

-- The list of lines that `RemoveMultiLineComments` changes is the one that the last checks see.
unfoldable pub finish_file :
    Settings
    → (Text → Option (List Text))
    → Text
    → Text
    → CleansedLines
    → List Text
    → Handler
    → FileState × Globals
    → Globals
finish_file settings read_lines filename file_extension clean_lines lines error (s, g) =
    let fs = settings.file_system in
    let g1 = check_completed_blocks error filename s.nesting_state g in
    let g2 =
      check_for_include_what_you_use fs read_lines filename clean_lines s.include_state error g1 in
    let g3 =
      if equal file_extension (text "cc")
      then check_header_file_included fs filename s.include_state error g2
      else g2 in
    check_for_newline_at_eof filename lines error (check_for_bad_characters filename lines error g3)

unfoldable pub process_file_data :
    Settings → (Text → Option (List Text)) → Text → Text → List Text → Handler → Action
process_file_data settings read_lines filename file_extension file_lines error g =
    let g1 = check_for_copyright filename (with_markers file_lines) error (reset_suppressions g) in
    let (lines, g2) = remove_multi_line_comments filename (with_markers file_lines) error g1 in
    let clean_lines = cleansed_lines lines in
    let g3 =
      if equal file_extension (text "h")
      then check_for_header_guard settings.file_system settings.root filename clean_lines error g2
      else g2 in
    finish_file settings read_lines filename file_extension clean_lines lines error (
      process_lines settings filename file_extension clean_lines 0 clean_lines.num_lines error
        (new_file, g3))
