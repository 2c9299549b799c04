-- ===== src/Tests/Checks.antt =====
-- The checks of a line, and the files, on short inputs.
use epiphany_bsp.Lint.State.{
  add_filters, first_unsigned, append_filters, backup_filters, set_verbose_level, is_signed,
}
use epiphany_bsp.Lint.Steps.{on_option, ◌⨾◌, branch, each}
use epiphany_bsp.Base.{refl, ◌≡◌, true, false, none, some, List, [], ◌∷◌}
use epiphany_bsp.Base.Text.{Text, lower, text, equal, split, strip, rfind, starts_with}
use epiphany_bsp.Base.Int.{pos}
use epiphany_bsp.Regex.{match, search_in}
use epiphany_bsp.Regex.Compile.{re}
use epiphany_bsp.Lint.Report
use epiphany_bsp.Lint.Report.{Globals, error}
use epiphany_bsp.Lint.Nesting
use epiphany_bsp.Lint.FileInfo.{FileSystem, split_path}
use epiphany_bsp.Lint.Braces.PreviousLine.{get_previous_non_blank_line}
use epiphany_bsp.Lint.Braces.Nearest.{IsNearest, get_previous_non_blank_line-IsNearest}
use epiphany_bsp.Lint.RValue.Symbols.{type_words, match_symbol}
use epiphany_bsp.Lint.RValue.Types.{
  rvalue_step, at_symbol, before_parenthesis, is_implicit_constructor,
}
use epiphany_bsp.Lint.RValue.Loops.{has_statement-closed}
use epiphany_bsp.Lint.Style.Width.{Settings}
use epiphany_bsp.Lint.Driver.Config.{
  Files, look_up, no_overrides, config_overrides, process_config_overrides, apply_config,
  apply_config_lines, apply_config_line, partition, apply_setting, write, add_filter,
}
use epiphany_bsp.Lint.Driver.NoParent.{look_up-noparent}
use epiphany_bsp.Lint.RValue.Types.{again}
use epiphany_bsp.Lint.RValue.Symbols.{has_statement}
use epiphany_bsp.Lint.Spacing.Punctuation.{concat_text, lines_between}
use epiphany_bsp.Lint.Driver.Data.{process_file_data}
use epiphany_bsp.Lint.Driver.File.{
  process_file, restore, read_file, check_text, extension_of, enter_file,
}
use epiphany_bsp.Lint.Language.Printf.{get_text_inside}
use epiphany_bsp.Lint.Language.Printf.Inside.{get_text_inside-Balanced}
use epiphany_bsp.Lint.Expression.Balanced.{nil, plain, nest}
use epiphany_bsp.Regex.{Found, match}
use epiphany_bsp.Lint.Driver.Restore.{process_file-filters}
use epiphany_bsp.Lint.Trace.Effect.{Effect, process_file_data-Effect}

-- a file system in which every path is absolute and nothing exists
abbrev no_files : FileSystem
no_files = record { abs_path = λ p. p; exists = λ p. false }

abbrev settings : Settings
settings = record {
  root = none;
  line_length = pos 80;
  valid_extensions = text "cc" ∷ text "h" ∷ [];
  file_system = no_files;
  unicode = record {
    normalize = λ s. s;
    lower = lower;
    is_wide = λ c. false;
    is_combining = λ c. false;
  };
}

-- every directory has a configuration file that turns a category off, and every file has one line
abbrev files : Files
files = record {
  is_file = λ p. true;
  read_lines = λ p. some (text "filter=-build" ∷ []);
  read_text = λ p. some (text "int x;\n");
}

process_file_data-Effect_example : Effect Report.initial (
    process_file_data settings
      (λ p. none)
      (text "a.cc")
      (text "cc")
      (text "  long x;" ∷ [] ∷ [])
      error
      Report.initial)
process_file_data-Effect_example =
    process_file_data-Effect settings (λ p. none) (text "a.cc") (text "cc")
      (text "  long x;" ∷ [] ∷ []) Report.initial

process_file-filters_example :
    (process_file files (text "/b.txt") 1 (settings, Report.initial)).1.lint.filters
    ≡ Report.initial.lint.filters
unfolding text process_file restore process_config_overrides config_overrides look_up split_path
    apply_config apply_config_lines apply_config_line strip partition apply_setting equal read_file
    on_option check_text ◌⨾◌ write branch extension_of rfind each add_filter add_filters
    first_unsigned append_filters split enter_file backup_filters set_verbose_level Report.initial
    epiphany_bsp.Lint.State.initial is_signed starts_with
process_file-filters_example =
    process_file-filters files (text "/b.txt") 1 settings Report.initial refl

-- the file in `/a` ends the way up
abbrev no_parent : Files
no_parent = record {
  is_file = λ p. true;
  read_lines =
      λ p. some (text "filter=-build\n" ∷ text "set noparent\n" ∷ text "linelength=100\n" ∷ []);
  read_text = λ p. none;
}

look_up-noparent_example :
    look_up 6 no_parent (text "/a/b.cc") (text "/a/b.cc") (no_overrides (pos 80))
    ≡ apply_config no_parent (text "/a/b.cc") (text "/a") (text "b.cc") (no_overrides (pos 80))
unfolding text split_path
look_up-noparent_example =
    look_up-noparent 5 no_parent (text "/a/b.cc") (text "/a/b.cc") (text "filter=-build\n" ∷ [])
      (text "linelength=100\n" ∷ []) (no_overrides (pos 80)) refl refl refl refl refl

get_previous_non_blank_line-IsNearest_example :
    IsNearest
      (text "{" ∷ [] ∷ text "}" ∷ [])
      2
      (get_previous_non_blank_line (text "{" ∷ [] ∷ text "}" ∷ []) 2)
get_previous_non_blank_line-IsNearest_example =
    get_previous_non_blank_line-IsNearest (text "{" ∷ [] ∷ text "}" ∷ []) 2

abbrev two_args : List Text
two_args = text "int a" ∷ text " B<c, d> e" ∷ []

-- The `&&` is asked about at column 4, and so is the call that this ends in.
abbrev call_lines : List Text
call_lines = text "" ∷ text "int  f(" ∷ text "   a&& b);" ∷ []

asks_again : rvalue_step [] call_lines Nesting.initial 2 4 ≡ again 4
unfolding rvalue_step text re match type_words equal search_in match_symbol at_symbol
    before_parenthesis is_implicit_constructor
asks_again = refl

-- Behind `f() {` comes a block without a statement, and then a declaration.
abbrev block_lines : List Text
block_lines = text "" ∷ text "f() { a" ∷ text " && b }" ∷ text " int x;" ∷ []

has_statement-closed_example : has_statement block_lines 1 4 ≡ true
unfolding text lines_between concat_text
has_statement-closed_example =
    has_statement-closed block_lines 1 (text "f() ") (text " a") (text " && b ") (text " int x") []
      refl refl (refl, (refl, (refl, (refl, tt)))) (refl, (refl, tt))
      (refl, (refl, (refl, (refl, (refl, (refl, tt))))))
      (refl, (refl, (refl, (refl, (refl, (refl, tt))))))

abbrev printf_found : Found
printf_found = record { head = b'=' ∷ []; covered = b'f' ∷ b'(' ∷ []; tail = []; groups = [] }

get_text_inside-Balanced_example :
    get_text_inside
      (b'=' ∷ b'f' ∷ b'(' ∷ b'a' ∷ b'[' ∷ b'b' ∷ b']' ∷ b')' ∷ b';' ∷ [])
      (some printf_found)
    ≡ some (b'a' ∷ b'[' ∷ b'b' ∷ b']' ∷ [])
get_text_inside-Balanced_example =
    get_text_inside-Balanced printf_found (b'f' ∷ []) (b'a' ∷ b'[' ∷ b'b' ∷ b']' ∷ []) (b';' ∷ [])
      b'(' b')' refl refl
      (plain b'a' (b'[' ∷ b'b' ∷ b']' ∷ []) refl
        (nest b'[' b']' (b'b' ∷ []) [] refl (plain b'b' [] refl nil) nil refl))
