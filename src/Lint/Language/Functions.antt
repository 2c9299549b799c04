-- ===== src/Lint/Language/Functions.antt =====
-- `CheckMakePairUsesDeduction`, `CheckDefaultLambdaCaptures`, `CheckRedundantVirtual` and
-- `CheckRedundantOverrideOrFinal` of scripts/cpplint.py.
use epiphany_bsp.Base.{
  Bool, List, Option, drop, if◌then◌else◌, length, ltb, none, not, some, suc, zero, ℕ, ◌&&◌, ◌++◌,
  ◌+◌, ◌-◌, ◌||◌,
}
use epiphany_bsp.Base.Text.{Text, rfind, text}
use epiphany_bsp.Lint.Cleanse.{CleansedLines}
use epiphany_bsp.Lint.Expression.{Place, close_expression}
use epiphany_bsp.Lint.Report.{Handler}
use epiphany_bsp.Lint.Steps.{Action, for_some, line_at, skip, when, ◌⨾◌}
use epiphany_bsp.Regex.{Found, group_text, is_found, match, matches, occurs, search_in}
use epiphany_bsp.Regex.Compile.{re}

unfoldable pub check_make_pair_uses_deduction : Text → CleansedLines → ℕ → Handler → Action
check_make_pair_uses_deduction filename clean_lines linenum error =
    when (occurs (re "\\bmake_pair\\s*<") (line_at clean_lines.elided linenum)) (
      error filename linenum (text "build/explicit_make_pair") 4 (
        (text "For C++11-compatibility, omit template arguments from make_pair")
        ++ (text " OR use pair directly OR if appropriate, construct a pair directly")))

unfoldable pub check_default_lambda_captures : Text → CleansedLines → ℕ → Handler → Action
check_default_lambda_captures filename clean_lines linenum error =
    for_some (match (re "^(.*)\\[\\s*(?:=|&[^\\w])") (line_at clean_lines.elided linenum)) (λ m.
      let end : Place = close_expression clean_lines.elided linenum (length (group_text 1 m)) in
      for_some end.pos (λ x. when (matches (re "^\\s*[{(]") (drop x end.line)) (
        error filename linenum (text "build/c++11") 4
          (text "Default lambda captures are an unapproved C++ feature."))))

-- where the parameters end that open on one of so many lines, from a column of the first
unfoldable pub parameter_list_end : List Text → ℕ → ℕ → ℕ → Option (ℕ × ℕ)
parameter_list_end elided i start_col zero = none
parameter_list_end elided i start_col (suc n) =
    let below = parameter_list_end elided (suc i) 0 n in
    elim (match (re "^([^(]*)\\(") (drop start_col (line_at elided i))) [
      | none ↦ below
      | some m ↦
          let end : Place = close_expression elided i (start_col + length (group_text 1 m)) in
          elim end.pos [ none ↦ none | some end_col ↦ some (end.linenum, end_col) ]
    ]

-- Each of so many lines, from a column of the first, is searched, up to one that does not end in a word.
unfoldable pub check_specifiers : List Text → ℕ → ℕ → ℕ → Text → ℕ → Handler → Action
check_specifiers elided i end_col zero filename linenum error = skip
check_specifiers elided i end_col (suc n) filename linenum error =
    let line = drop end_col (line_at elided i) in
    for_some (search_in (re "\\b(override|final)\\b") line) (λ m.
      error filename linenum (text "readability/inheritance") 4 (
        (text "\"virtual\" is redundant since function is ")
        ++ ((text "already declared as \"") ++ (group_text 1 m ++ (text "\"")))))
    ⨾ when (not (occurs (re "[^\\w]\\s*$") line))
        (check_specifiers elided (suc i) 0 n filename linenum error)

-- how many of the three lines from one on there are
abbrev three_lines : ℕ → ℕ → ℕ
three_lines num_lines i = if ltb (i + 3) num_lines then 3 else num_lines - i

unfoldable pub is_inherited : Found → Text → Bool
is_inherited virtual line =
    occurs (re "\\b(public|protected|private)\\s+$") (group_text 1 virtual)
    || matches (re "^\\s+(public|protected|private)\\b") (group_text 3 virtual)
    || matches (re "^.*[^:]:[^:].*$") line

-- The search begins on the line itself at a column that is the length of the word.
unfoldable pub check_redundant_virtual : Text → CleansedLines → ℕ → Handler → Action
check_redundant_virtual filename clean_lines linenum error =
    let elided = clean_lines.elided in
    let line = line_at elided linenum in
    for_some (match (re "^(.*)(\\bvirtual\\b)(.*)$") line) (λ virtual.
      when (not (is_inherited virtual line)) (
        for_some
          (parameter_list_end elided linenum (length (group_text 2 virtual))
            (three_lines clean_lines.num_lines linenum))
          (λ (end_line, end_col).
            check_specifiers elided end_line end_col (three_lines clean_lines.num_lines end_line)
              filename linenum error)))

unfoldable pub declarator_end : List Text → ℕ → Option Text
declarator_end elided linenum =
    let line = line_at elided linenum in
    elim (rfind line b')') [
      | some i ↦ some (drop i line)
      | none ↦
          if ltb 1 linenum && is_found (rfind (line_at elided (linenum - 1)) b')')
          then some line
          else none
    ]

unfoldable pub check_redundant_override_or_final : Text → CleansedLines → ℕ → Handler → Action
check_redundant_override_or_final filename clean_lines linenum error =
    for_some (declarator_end clean_lines.elided linenum) (λ fragment.
      when (occurs (re "\\boverride\\b") fragment && occurs (re "\\bfinal\\b") fragment) (
        error filename linenum (text "readability/inheritance") 4 (
          (text "\"override\" is redundant since function is ")
          ++ (text "already declared as \"final\""))))
