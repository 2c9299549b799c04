-- ===== src/Lint/Spacing/Operators.antt =====
-- `CheckOperatorSpacing` of scripts/cpplint.py: the spaces around operators.
use epiphany_bsp.Base.{
  Bool, List, all, length, map, none, not, some, suc, zero, ℕ, ◌&&◌, ◌++◌, ◌||◌,
}
use epiphany_bsp.Base.Text.{Text, equal, text}
use epiphany_bsp.Lint.Cleanse.{CleansedLines}
use epiphany_bsp.Lint.Expression.{close_expression}
use epiphany_bsp.Lint.Expression.Reverse.{reverse_close_expression}
use epiphany_bsp.Lint.Report.{Handler}
use epiphany_bsp.Lint.Steps.{Action, for_some, line_at, on_option, when, ◌⨾◌}
use epiphany_bsp.Regex.{Found, group_text, is_found, is_nil, match, matches, occurs, search_in}
use epiphany_bsp.Regex.Compile.{is_digit, re}

-- One round replaces the name behind the last `operator` by underscores. A name is then a word, so that
-- the next round finds another one; the fuel is one more than the line is long, and a line has fewer
-- operators than that.
unfoldable pub hide_operators : ℕ → Text → Text
hide_operators zero line = line
hide_operators (suc fuel) line = elim (match (re "^(.*\\boperator\\b)(\\S+)(\\s*\\(.*)$") line) [
  | none ↦ line
  | some m ↦
      hide_operators fuel (group_text 1 m ++ (map (λ c. b'_') (group_text 2 m) ++ group_text 3 m))
]

unfoldable pub lacks_spaces_around_equals : Text → Bool
lacks_spaces_around_equals line =
    (occurs (re "[\\w.]=") line || occurs (re "=[\\w.]") line)
    && not (occurs (re "\\b(if|while|for) ") line)
    && not (occurs (re "(>=|<=|==|!=|&=|\\^=|\\|=|\\+=|\\*=|\\/=|\\%=)") line)
    && not (occurs (re "operator=") line)

abbrev is_digits : Text → Bool
is_digits s = not (is_nil s) && all is_digit s

unfoldable pub check_less : Text → List Text → Text → ℕ → Handler → Action
check_less line elided filename linenum error =
    for_some (match (re "^(.*[^\\s<])<[^\\s=<,]") line) (λ m.
      when (not (is_found (close_expression elided linenum (length (group_text 1 m))).pos))
        (error filename linenum (text "whitespace/operators") 3 (text "Missing spaces around <")))

unfoldable pub check_greater : Text → List Text → Text → ℕ → Handler → Action
check_greater line elided filename linenum error =
    for_some (match (re "^(.*[^-\\s>])>[^\\s=>,]") line) (λ m.
      when (not (is_found (reverse_close_expression elided linenum (length (group_text 1 m))).pos))
        (error filename linenum (text "whitespace/operators") 3 (text "Missing spaces around >")))

unfoldable pub is_shift : Found → Bool
is_shift m =
    not (is_digits (group_text 1 m) && is_digits (group_text 2 m))
    && not (equal (group_text 1 m) (text "operator") && equal (group_text 2 m) (text ";"))

unfoldable pub check_operator_spacing : Text → CleansedLines → ℕ → Handler → Action
check_operator_spacing filename clean_lines linenum error =
    let elided = clean_lines.elided in
    let line : Text =
      hide_operators (suc (length (line_at elided linenum))) (line_at elided linenum) in
    when (lacks_spaces_around_equals line)
      (error filename linenum (text "whitespace/operators") 4 (text "Missing spaces around ="))
    ⨾ on_option (search_in (re "[^<>=!\\s](==|!=|<=|>=|\\|\\|)[^<>=!\\s,;\\)]") line)
        (when (not (matches (re "#.*include") line)) (
          check_less line elided filename linenum error
          ⨾ check_greater line elided filename linenum error))
        (λ m.
          error filename linenum (text "whitespace/operators") 3
            ((text "Missing spaces around ") ++ group_text 1 m))
    ⨾ for_some (search_in (re "(operator|[^\\s(<])(?:L|UL|ULL|l|ul|ull)?<<([^\\s,=<])") line) (λ m.
      when (is_shift m)
        (error filename linenum (text "whitespace/operators") 3 (text "Missing spaces around <<")))
    ⨾ when (occurs (re ">>[a-zA-Z_]") line)
        (error filename linenum (text "whitespace/operators") 3 (text "Missing spaces around >>"))
    ⨾ for_some (search_in (re "(!\\s|~\\s|[\\s]--[\\s;]|[\\s]\\+\\+[\\s;])") line) (λ m.
      error filename linenum (text "whitespace/operators") 4
        ((text "Extra space for operator ") ++ group_text 1 m))
