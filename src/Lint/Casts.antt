-- ===== src/Lint/Casts.antt =====
-- `CheckCasts` of scripts/cpplint.py.
pub mod Style
pub mod References
use epiphany_bsp.Base.{
  Bool, List, [], drop, if◌then◌else◌, length, ltb, none, not, some, ℕ, ◌&&◌, ◌++◌, ◌+◌, ◌-◌, ◌==◌,
  ◌||◌, ◌∷◌,
}
use epiphany_bsp.Base.Text.{Text, starts_with, text}
use epiphany_bsp.Lint.Casts.Style.{
  Verdict, c_style_cast, check_c_style_cast, expecting_function_args, is_reported, report_cast,
}
use epiphany_bsp.Lint.Cleanse.{CleansedLines}
use epiphany_bsp.Lint.Expression.{Place, close_expression}
use epiphany_bsp.Lint.FileInfo.{below}
use epiphany_bsp.Lint.Report.{Handler}
use epiphany_bsp.Lint.Steps.{Action, crash, line_at, on_option, when, ◌⨾◌}
use epiphany_bsp.Regex.{
  Found, group_of, group_text, is_found, is_nil, match, matches, occurs, search_in,
}
use epiphany_bsp.Regex.Compile.{pattern, re}

unfoldable pub is_function_pointer : Text → Bool
is_function_pointer s =
    not (is_nil s)
    && (matches (re "\\((?:[^() ]+::\\s*\\*\\s*)?[^() ]+\\)\\s*\\(") s
        || starts_with s (text "(*)"))

unfoldable pub is_deprecated_cast : Found → Text → Bool
is_deprecated_cast m line =
    let matched_type = group_text 2 m in
    not (is_found (group_of 1 m.groups))
    && not (is_function_pointer (group_text 3 m))
    && not (matches (pattern ((text "\\s*using\\s+\\S+\\s*=\\s*") ++ matched_type)) line)
    && not (occurs (pattern ((text "new\\(\\S+\\)\\s*") ++ matched_type)) line)

-- what the address of a cast is taken for; the last case is an index behind the end of a line
pub data Address : Type 0 where
  of_cast of_dereferenced fails : Address

unfoldable pub behind_argument : List Text → Place → Address
behind_argument elided p = elim p.pos [
  | none ↦ of_cast
  | some x2 ↦
      let below = line_at elided (p.linenum + 1) in
      let rest = drop x2 (line_at elided p.linenum) in
      if matches (re "\\s*(?:->|\\[)")
        (rest ++ (if ltb p.linenum (length elided - 1) then below else []))
      then of_dereferenced
      else of_cast
]

unfoldable pub address_of_cast : List Text → ℕ → Address
address_of_cast elided linenum =
    elim (match (re "^(.*&(?:static|dynamic|down|reinterpret)_cast\\b)<")
      (line_at elided linenum)) [
        | none ↦ of_cast
        | some m ↦
            let end : Place = close_expression elided linenum (length (group_text 1 m)) in
            elim end.pos [
              | none ↦ of_cast
              | some x1 ↦ elim (drop x1 (line_at elided end.linenum)) [
                | [] ↦ fails
                | c ∷ _ ↦
                    if c == b'('
                    then behind_argument elided (close_expression elided end.linenum x1)
                    else of_cast
              ]
            ]
      ]

unfoldable pub report_address : Address → Text → ℕ → Handler → Action
report_address fails filename linenum error = crash
report_address of_dereferenced filename linenum error =
    error filename linenum (text "readability/casting") 4 (
      (text "Are you taking an address of something dereferenced ")
      ++ ((text "from a cast?  Wrapping the dereferenced expression in ")
          ++ (text "parentheses will make the binding more obvious")))
report_address of_cast filename linenum error = error filename linenum (text "runtime/casting") 4 (
    (text "Are you taking an address of a cast?  ")
    ++ ((text "This is dangerous: could be a temp var.  ")
        ++ (text "Take the address before doing the cast, rather than after")))

-- what comes behind the deprecated casts
unfoldable pub check_other_casts : Text → CleansedLines → ℕ → Bool → Handler → Action
check_other_casts filename clean_lines linenum expecting_function error =
    let const_cast : Verdict =
      c_style_cast clean_lines linenum (re "\\((char\\s?\\*+\\s?)\\)\\s*\"") in
    when (not expecting_function) (
      check_c_style_cast filename clean_lines linenum (text "static_cast")
        (re "\\((int|float|double|bool|char|u?int(16|32|64))\\)") error)
    ⨾ report_cast const_cast (text "const_cast") filename linenum error
    ⨾ when (not (is_reported const_cast)) (
        check_c_style_cast filename clean_lines linenum (text "reinterpret_cast")
          (re "\\((\\w+\\s?\\*+\\s?)\\)") error)
    ⨾ when
        (occurs
          (re
            "(?:[^\\w]&\\(([^)*][^)]*)\\)[\\w(])|(?:[^\\w]&(static|dynamic|down|reinterpret)_cast\\b)")
          (line_at clean_lines.elided linenum))
        (report_address (address_of_cast clean_lines.elided linenum) filename linenum error)

unfoldable pub check_casts : Text → CleansedLines → ℕ → Handler → Action
check_casts filename clean_lines linenum error =
    let line = line_at clean_lines.elided linenum in
    let expecting_function : Bool = expecting_function_args clean_lines.elided linenum in
    let others : Action = check_other_casts filename clean_lines linenum expecting_function error in
    on_option
      (if expecting_function
        then none
        else search_in
            (re
              "(\\bnew\\s+|\\S<\\s*(?:const\\s+)?)?\\b(int|float|double|bool|char|int32|uint32|int64|uint64)(\\([^)].*)")
            line)
      others
      (λ m. when (not (matches (re "\\([^()]+\\)\\s*\\[") (group_text 3 m))) (
        when (is_deprecated_cast m line) (
          error filename linenum (text "readability/casting") 4 (
            (text "Using deprecated casting style.  Use static_cast<")
            ++ (group_text 2 m ++ (text ">(...) instead"))))
        ⨾ others))
