-- ===== src/Lint/RValue.antt =====
-- `CheckRValueReference` of scripts/cpplint.py.
pub mod Symbols
pub mod Types
pub mod Loops
pub mod Allowed
use epiphany_bsp.Base.{Option, length, none, not, some, ℕ, ◌||◌}
use epiphany_bsp.Base.Text.{Text, contains, text}
use epiphany_bsp.Lint.Cleanse.{CleansedLines}
use epiphany_bsp.Lint.Nesting.{NestingState}
use epiphany_bsp.Lint.RValue.Allowed.{get_template_args, is_rvalue_allowed}
use epiphany_bsp.Lint.RValue.Types.{is_rvalue_type}
use epiphany_bsp.Lint.Report.{Handler}
use epiphany_bsp.Lint.Steps.{Action, branch, crash, for_some, line_at, on_option, when}
use epiphany_bsp.Regex.{Found, group_text, match, occurs}
use epiphany_bsp.Regex.Compile.{re}

unfoldable pub match_and : Text → Option Found
match_and line = elim (match (re "^(.*\\S)&&") line) [
  | none ↦ match (re "(.*)&&\\S") line
  | some m ↦ some m
]

unfoldable pub check_rvalue_reference : Text → CleansedLines → ℕ → NestingState → Handler → Action
check_rvalue_reference filename clean_lines linenum nesting_state error =
    let elided = clean_lines.elided in
    let line = line_at elided linenum in
    let typenames = get_template_args elided linenum in
    for_some (match_and line) (λ m.
      when (not (contains line (text "(&&)") || occurs (re "\\boperator\\s*$") (group_text 1 m))) (
        on_option
          (is_rvalue_type 1000 typenames elided nesting_state linenum (length (group_text 1 m)))
          crash
          (λ is_type.
            branch is_type
              (when (not (is_rvalue_allowed elided linenum typenames)) (
                error filename linenum (text "build/c++11") 3
                  (text "RValue references are an unapproved C++ feature.")))
              (error filename linenum (text "whitespace/operators") 3
                (text "Missing spaces around &&")))))
