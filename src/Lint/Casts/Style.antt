-- ===== src/Lint/Casts/Style.antt =====
-- `CheckCStyleCast` and `ExpectingFunctionArgs` of scripts/cpplint.py.
use epiphany_bsp.Base.{
  Bool, List, false, if◌then◌else◌, leb, none, not, some, true, ℕ, ◌&&◌, ◌++◌, ◌+◌, ◌-◌, ◌||◌,
}
use epiphany_bsp.Base.Text.{Text, contains, ends_with, equal, text}
use epiphany_bsp.Lint.Cleanse.{CleansedLines}
use epiphany_bsp.Lint.Report.{Handler}
use epiphany_bsp.Lint.Spacing.Punctuation.{concat_text, lines_between}
use epiphany_bsp.Lint.Steps.{Action, line_at, skip}
use epiphany_bsp.Regex.{Found, Regex, group_text, match, matches, occurs, search_in}
use epiphany_bsp.Regex.Compile.{pattern, re}

unfoldable pub expecting_function_args : List Text → ℕ → Bool
expecting_function_args elided linenum =
    matches (re "^\\s*MOCK_(CONST_)?METHOD\\d+(_T)?\\(") (line_at elided linenum)
    || (leb 2 linenum
        && (matches (re "^\\s*MOCK_(?:CONST_)?METHOD\\d+(?:_T)?\\((?:\\S+,)?\\s*$")
              (line_at elided (linenum - 1))
            || matches (re "^\\s*MOCK_(?:CONST_)?METHOD\\d+(?:_T)?\\(\\s*$")
                (line_at elided (linenum - 2))
            || occurs (re "\\bstd::m?function\\s*\\<\\s*$") (line_at elided (linenum - 1))))

-- what a type in parentheses is taken for
pub data Verdict : Type 0 where
  other unnamed : Verdict
  cast : Text → Verdict

-- what stands before the parenthesis rules a cast out
unfoldable pub excludes_cast : Text → Text → Bool
excludes_cast before context =
    matches (re ".*\\b(?:sizeof|alignof|alignas|[_A-Z][_A-Z0-9]*)\\s*$") before
    || matches (re ".*\\b[_A-Z][_A-Z0-9]*\\s*\\((?:\\([^()]*\\)|[^()])*$") context
    || ends_with context (text " operator++")
    || ends_with context (text " operator--")

-- what stands behind the type, and a comment, tell that no name of a parameter is missing
unfoldable pub is_not_unnamed : Found → Text → Bool
is_not_unnamed m raw_line =
    matches (re "^\\s*>") m.tail
    || elim (match (re "^\\s=\\s*(\\S+)\\s*;") m.tail) [
      | none ↦ false
      | some zero_match ↦ not (equal (group_text 1 zero_match) (text "0"))
    ]
    || matches (re ".*\\)\\s*$") m.head
    || contains raw_line (text "/*")

-- The pattern begins with a parenthesis, which stands right before its first group. The context is
-- the code before it, with four lines above, but not the first of the file.
unfoldable pub c_style_cast : CleansedLines → ℕ → Regex → Verdict
c_style_cast clean_lines linenum pattern =
    elim (search_in pattern (line_at clean_lines.elided linenum)) [
      | none ↦ other
      | some m ↦
          if excludes_cast m.head
            (concat_text (lines_between clean_lines.elided (linenum - 5 + 1) linenum) ++ m.head)
          then other
          else if matches (re "^\\s*(?:;|const\\b|throw\\b|final\\b|override\\b|[=>{),]|->)") m.tail
          then (if is_not_unnamed m (line_at clean_lines.raw_lines linenum) then other else unnamed)
          else cast (group_text 1 m)
    ]

unfoldable pub report_cast : Verdict → Text → Text → ℕ → Handler → Action
report_cast other cast_type filename linenum error = skip
report_cast unnamed cast_type filename linenum error =
    error filename linenum (text "readability/function") 3
      (text "All parameters should be named in a function")
report_cast (cast type) cast_type filename linenum error =
    error filename linenum (text "readability/casting") 4 (
      (text "Using C-style cast.  Use ")
      ++ (cast_type ++ ((text "<") ++ (type ++ (text ">(...) instead")))))

-- what `CheckCStyleCast` returns
unfoldable pub is_reported : Verdict → Bool
is_reported other = false
is_reported unnamed = true
is_reported (cast type) = true

unfoldable pub check_c_style_cast : Text → CleansedLines → ℕ → Text → Regex → Handler → Action
check_c_style_cast filename clean_lines linenum cast_type pattern error =
    report_cast (c_style_cast clean_lines linenum pattern) cast_type filename linenum error
