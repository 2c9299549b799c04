-- ===== src/Lint/Language.antt =====
-- `CheckLanguage` of scripts/cpplint.py. A line with `#include` is checked as such; the section of the
-- includes ends at the branches of the preprocessor.
pub mod Printf
pub mod Arrays
pub mod Constructs
pub mod Functions
use epiphany_bsp.Base.{Bool, if◌then◌else◌, none, not, some, ℕ, ◌&&◌, ◌++◌}
use epiphany_bsp.Base.Text.{Text, ends_with, equal, text}
use epiphany_bsp.Lint.Casts.{check_casts}
use epiphany_bsp.Lint.Cleanse.{CleansedLines}
use epiphany_bsp.Lint.FileInfo.{FileSystem}
use epiphany_bsp.Lint.IncludeState.{IncludeState, reset_section}
use epiphany_bsp.Lint.Includes.{check_include_line, include_line}
use epiphany_bsp.Lint.Language.Arrays.{check_array_size, check_global_static}
use epiphany_bsp.Lint.Language.Printf.{check_format_string, check_printf}
use epiphany_bsp.Lint.Report.{Globals, Handler}
use epiphany_bsp.Lint.Steps.{Action, branch, for_some, line_at, when, ◌⨾◌}
use epiphany_bsp.Regex.{group_text, is_nil, match, matches, occurs, search_in}
use epiphany_bsp.Regex.Compile.{re}

unfoldable pub check_integers : Text → Text → ℕ → Handler → Action
check_integers line filename linenum error =
    branch (occurs (re "\\bshort port\\b") line)
      (when (not (occurs (re "\\bunsigned short port\\b") line)) (
        error filename linenum (text "runtime/int") 4
          (text "Use \"unsigned short\" for ports, not \"short\"")))
      (for_some (search_in (re "\\b(short|long(?! +double)|long long)\\b") line) (λ m.
        error filename linenum (text "runtime/int") 4
          ((text "Use int16/int64/etc, rather than the C type ") ++ group_text 1 m)))

unfoldable pub check_memset : Text → Text → ℕ → Handler → Action
check_memset line filename linenum error =
    for_some (search_in (re "memset\\s*\\(([^,]*),\\s*([^,]*),\\s*0\\s*\\)") line) (λ m.
      when (not (matches (re "^''|-?[0-9]+|0x[0-9A-Fa-f]$") (group_text 2 m))) (
        error filename linenum (text "runtime/memset") 4 (
          (text "Did you mean \"memset(")
          ++ (group_text 1 m ++ ((text ", 0, ") ++ (group_text 2 m ++ (text ")\"?")))))))

-- the line ends in a backslash
unfoldable pub goes_on : Text → Bool
goes_on line = ends_with line (text "\\")

unfoldable pub check_namespaces : Text → Text → Text → ℕ → Handler → Action
check_namespaces line file_extension filename linenum error =
    when
      (equal file_extension (text "h")
        && occurs (re "\\bnamespace\\s*{") line
        && not (goes_on line))
      (error filename linenum (text "build/namespaces") 4 (
        (text "Do not use unnamed namespaces in header files.  See ")
        ++ ((text "http://google-styleguide.googlecode.com/svn/trunk/cppguide.xml#Namespaces")
            ++ (text " for more information."))))

unfoldable pub check_code : Text → Text → CleansedLines → ℕ → Text → Handler → Action
check_code line filename clean_lines linenum file_extension error =
    check_casts filename clean_lines linenum error
    ⨾ check_global_static filename clean_lines linenum error
    ⨾ check_printf filename clean_lines linenum error
    ⨾ check_integers line filename linenum error
    ⨾ when (occurs (re "\\boperator\\s*&\\s*\\(\\s*\\)") line) (
        error filename linenum (text "runtime/operator") 4
          (text "Unary operator& is dangerous.  Do not use it."))
    ⨾ when (occurs (re "\\}\\s*if\\s*\\(") line) (
        error filename linenum (text "readability/braces") 4
          (text "Did you mean \"else if\"? If not, start a new line for \"if\"."))
    ⨾ check_format_string line filename linenum error
    ⨾ check_memset line filename linenum error
    ⨾ when (occurs (re "\\busing namespace\\b") line) (
        error filename linenum (text "build/namespaces") 5 (
          (text "Do not use namespace using-directives.  ")
          ++ (text "Use using-declarations instead.")))
    ⨾ check_array_size line filename linenum error
    ⨾ check_namespaces line file_extension filename linenum error

unfoldable pub reset_at : Text → IncludeState → IncludeState
reset_at line s = elim (match (re "^\\s*#\\s*(if|ifdef|ifndef|elif|else|endif)\\b") line) [
  | none ↦ s
  | some m ↦ reset_section (group_text 1 m) s
]

unfoldable pub check_language :
    FileSystem
    → (Text → Text)
    → Text
    → CleansedLines
    → ℕ
    → Text
    → Handler
    → IncludeState × Globals
    → IncludeState × Globals
check_language fs to_lower filename clean_lines linenum file_extension error (s, g) =
    let line = line_at clean_lines.elided linenum in
    if is_nil line
    then (s, g)
    else if occurs include_line line
    then check_include_line fs to_lower filename clean_lines linenum error (s, g)
    else (reset_at line s, check_code line filename clean_lines linenum file_extension error g)
