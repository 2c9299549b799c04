-- ===== src/Lint/Language/Printf.antt =====
-- `_GetTextInside`, `CheckPrintf` and the format strings of `CheckLanguage` of scripts/cpplint.py.
pub mod Inside
use epiphany_bsp.Base.{
  List, Option, [], drop, get_or, if◌then◌else◌, length, none, not, some, suc, take, ℕ, ◌++◌, ◌+◌,
  ◌-◌, ◌==◌, ◌∷◌,
}
use epiphany_bsp.Base.Text.{Text, equal, lower, text}
use epiphany_bsp.Lint.Cleanse.{CleansedLines}
use epiphany_bsp.Lint.Expression.{is_closer, is_opener}
use epiphany_bsp.Lint.Report.{Handler}
use epiphany_bsp.Lint.Steps.{Action, for_some, line_at, when, ◌⨾◌}
use epiphany_bsp.Regex.{Found, group_text, is_nil, match, occurs, search_in}
use epiphany_bsp.Regex.Compile.{re}
use mathlib.Core.Option

abbrev closer_of : ℕ → ℕ
closer_of c = if c == b'(' then b')' else if c == b'{' then b'}' else b']'

-- how far the text goes that ends with the closing brackets of the stack
unfoldable pub scan_inside : List ℕ → Text → Option ℕ
scan_inside [] s = none
scan_inside (t ∷ stack) [] = none
scan_inside (t ∷ stack) (c ∷ s) =
    let closed = scan_inside stack s in
    let opened = scan_inside (closer_of c ∷ t ∷ stack) s in
    let next = scan_inside (t ∷ stack) s in
    if c == t
    then (if is_nil stack then some 0 else Option.map suc closed)
    else if is_closer c
    then none
    else if is_opener c
    then Option.map suc opened
    else Option.map suc next

-- what stands behind the pattern, whose last character opens a bracket, up to the closing bracket
unfoldable pub get_text_inside : Text → Option Found → Option Text
get_text_inside s none = none
get_text_inside s (some m) =
    let start = length m.head + length m.covered in
    elim (scan_inside (closer_of (get_or s (start - 1) 0) ∷ []) (drop start s)) [
      | none ↦ none
      | some n ↦ some (take n (drop start s))
    ]

-- r'(?i)\b(string)?printf\s*\(' is searched in the lower-case line, whose positions are the same; the
-- name is what stands there in the line.
unfoldable pub printf_call : Text → Option Found
printf_call line = search_in (re "\\b((?:string)?printf)\\s*\\(") (lower line)

unfoldable pub printf_name : Text → Text
printf_name line = elim (printf_call line) [
  | none ↦ []
  | some m ↦ take (length (group_text 1 m)) (drop (length m.head) line)
]

unfoldable pub check_format_string : Text → Text → ℕ → Handler → Action
check_format_string line filename linenum error =
    for_some (get_text_inside line (printf_call line)) (λ printf_args.
      for_some (match (re "([\\w.\\->()]+)$") printf_args) (λ m.
        when (not (equal (group_text 1 m) (text "__VA_ARGS__"))) (
          error filename linenum (text "runtime/printf") 4 (
            (text "Potential format string bug. Do ")
            ++ (printf_name line
                ++ ((text "(\"%s\", ") ++ (group_text 1 m ++ (text ") instead."))))))))

unfoldable pub check_printf : Text → CleansedLines → ℕ → Handler → Action
check_printf filename clean_lines linenum error =
    let line = line_at clean_lines.elided linenum in
    for_some (search_in (re "snprintf\\s*\\(([^,]*),\\s*([0-9]*)\\s*,") line) (λ m.
      when (not (equal (group_text 2 m) (text "0"))) (
        error filename linenum (text "runtime/printf") 3 (
          (text "If you can, use sizeof(")
          ++ (group_text 1 m
              ++ ((text ") instead of ")
                  ++ (group_text 2 m ++ (text " as the 2nd arg to snprintf.")))))))
    ⨾ when (occurs (re "\\bsprintf\\s*\\(") line) (
        error filename linenum (text "runtime/printf") 5
          (text "Never use sprintf. Use snprintf instead."))
    ⨾ for_some (search_in (re "\\b(strcpy|strcat)\\s*\\(") line) (λ m.
      error filename linenum (text "runtime/printf") 4
        ((text "Almost always, snprintf is better than ") ++ group_text 1 m))
