-- ===== src/Lint/Language/Arrays.antt =====
-- `CheckGlobalStatic` and the array sizes of `CheckLanguage` of scripts/cpplint.py.
use epiphany_bsp.Base.{
  Bool, List, [], false, if◌then◌else◌, length, ltb, not, true, ℕ, ◌&&◌, ◌++◌, ◌+◌, ◌==◌, ◌||◌, ◌∷◌,
}
use epiphany_bsp.Base.Text.{Text, contains, equal, starts_with, unicode_strip, text}
use epiphany_bsp.Lint.Cleanse.{CleansedLines}
use epiphany_bsp.Lint.Report.{Handler}
use epiphany_bsp.Lint.Steps.{Action, for_some, line_at, split_all, when, ◌⨾◌}
use epiphany_bsp.Regex.{group_text, is_nil, match, matches, occurs}
use epiphany_bsp.Regex.Compile.{re}
use mathlib.Core.List.{reverse}

unfoldable pub strip_left : ℕ → Text → Text
strip_left sep [] = []
strip_left sep (c ∷ s) = let rest = strip_left sep s in if c == sep then rest else c ∷ s

-- `tok.lstrip('(')` and `tok.rstrip(')')`
unfoldable pub strip_parentheses : Text → Text
strip_parentheses s = reverse (strip_left b')' (reverse (strip_left b'(' s)))

unfoldable pub is_const_name : Text → Bool
is_const_name tok =
    is_nil tok
    || matches (re "\\d+") tok
    || matches (re "0[xX][0-9a-fA-F]+") tok
    || matches (re "k[A-Z0-9]\\w*") tok
    || matches (re "(.+::)?k[A-Z0-9]\\w*") tok
    || matches (re "(.+::)?[A-Z][A-Z0-9_]*") tok

-- every token is a constant, or stands behind a `sizeof`; the flag says that the next one is skipped
unfoldable pub is_const_size : Bool → List Text → Bool
is_const_size skip_next [] = true
is_const_size skip_next (t ∷ tokens) =
    let tok = strip_parentheses t in
    let rest = is_const_size false tokens in
    let skipping = is_const_size true tokens in
    if skip_next
    then rest
    else if occurs (re "sizeof\\(.+\\)") t
        || occurs (re "arraysize\\(\\w+\\)") t
        || is_const_name tok
    then rest
    else if starts_with tok (text "sizeof")
    then skipping
    else false

unfoldable pub size_tokens : Text → List Text
size_tokens size = split_all (length size) (re "\\s|\\+|\\-|\\*|\\/|<<|>>]") size

unfoldable pub check_array_size : Text → Text → ℕ → Handler → Action
check_array_size line filename linenum error =
    for_some (match (re "\\s*(.+::)?(\\w+) [a-z]\\w*\\[(.+)];") line) (λ m.
      when
        (not (equal (group_text 2 m) (text "return"))
          && not (equal (group_text 2 m) (text "delete"))
          && not (contains (group_text 3 m) (text "]"))
          && not (is_const_size false (size_tokens (group_text 3 m))))
        (error filename linenum (text "runtime/arrays") 1 (
          (text "Do not use variable-length arrays.  Use an appropriately named ")
          ++ (text "('k' followed by CamelCase) compile-time constant for the size."))))

-- the line, with the next one if it may go on there
unfoldable pub joined_line : CleansedLines → ℕ → Text
joined_line clean_lines linenum =
    let line = line_at clean_lines.elided linenum in
    if ltb (linenum + 1) clean_lines.num_lines && not (occurs (re "[;({]") line)
    then line ++ unicode_strip (line_at clean_lines.elided (linenum + 1))
    else line

unfoldable pub check_global_static : Text → CleansedLines → ℕ → Handler → Action
check_global_static filename clean_lines linenum error =
    let line : Text = joined_line clean_lines linenum in
    for_some (match (re "((?:|static +)(?:|const +))string +([a-zA-Z0-9_:]+)\\b(.*)") line) (λ m.
      when
        (not (occurs (re "\\bstring\\b(\\s+const)?\\s*\\*\\s*(const\\s+)?\\w") line)
          && not (occurs (re "\\boperator\\W") line)
          && not (matches (re "\\s*(<.*>)?(::[a-zA-Z0-9_]+)*\\s*\\(([^\"]|$)") (group_text 3 m)))
        (error filename linenum (text "runtime/string") 4 (
          (text "For a static/global string constant, use a C style string instead: ")
          ++ ((text "\"")
              ++ (group_text 1 m ++ ((text "char ") ++ (group_text 2 m ++ (text "[]\"."))))))))
    ⨾ when (occurs (re "\\b([A-Za-z0-9_]*_)\\(\\1\\)") line) (
        error filename linenum (text "runtime/init") 4
          (text "You seem to be initializing a member variable with itself."))
