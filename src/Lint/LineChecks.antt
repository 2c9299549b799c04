-- ===== src/Lint/LineChecks.antt =====
-- Checks of one line in scripts/cpplint.py: thread-unsafe functions, VLOG, increments through a
-- pointer, C++11 features, and comments.
use Prim.Native.String.{String}
use epiphany_bsp.Base.{
  ℕ, Bool, true, false, not, ◌&&◌, none, some, List, [], ◌∷◌, ◌++◌, get_or, if◌then◌else◌,
}
use epiphany_bsp.Base.Text.{Text, text, member}
use epiphany_bsp.Regex.{
  Regex, ◌⊙◌, ◌⊕◌, lit, one, one_of, none_of, any_of, plus, group, space, spaces, word, line_start,
  boundary, match, matches, occurs, group_text,
}
use epiphany_bsp.Lint.Report.{Globals, Handler}
use epiphany_bsp.Lint.Cleanse.{CleansedLines}

-- r'(?:[-+*/=%^&|(<]\s*|>\s+)'
unfoldable pub unsafe_func_prefix : Regex
unsafe_func_prefix = (one_of "-+*/=%^&|(<" ⊙ spaces) ⊕ (one b'>' ⊙ plus space)

-- A row of `_THREADING_LIST`: the function's name, and whether it takes an argument. The texts and
-- the pattern of the row are made from these.
unfoldable pub threading_list : List (String × Bool)
threading_list =
    ("asctime", true)
    ∷ ("ctime", true)
    ∷ ("getgrgid", true)
    ∷ ("getgrnam", true)
    ∷ ("getlogin", false)
    ∷ ("getpwnam", true)
    ∷ ("getpwuid", true)
    ∷ ("gmtime", true)
    ∷ ("localtime", true)
    ∷ ("rand", false)
    ∷ ("strtok", true)
    ∷ ("ttyname", true)
    ∷ []

unfoldable pub threading_pattern : String × Bool → Regex
threading_pattern (name, takes_argument) =
    unsafe_func_prefix
    ⊙ lit name
    ⊙ one b'('
    ⊙ (if takes_argument then plus (none_of ")") ⊙ one b')' else one b')')

unfoldable pub check_threading_list :
    List (String × Bool) → Text → Text → ℕ → Handler → Globals → Globals
unfolding threading_pattern unsafe_func_prefix
check_threading_list [] filename line linenum error g = g
check_threading_list ((name, takes_argument) ∷ rows) filename line linenum error g =
    check_threading_list rows filename line linenum error (
      if occurs (threading_pattern (name, takes_argument)) line
      then error filename linenum (text "runtime/threadsafe_fn") 2
          (text "Consider using "
            ++ (text name
                ++ (text "_r("
                    ++ (text "...) instead of "
                        ++ (text name ++ text "(...) for improved thread safety.")))))
          g
      else g)

unfoldable pub check_posix_threading : Text → CleansedLines → ℕ → Handler → Globals → Globals
unfolding threading_list
check_posix_threading filename clean_lines linenum error g =
    check_threading_list threading_list filename (get_or clean_lines.elided linenum []) linenum
      error g

-- r'\bVLOG\((INFO|ERROR|WARNING|DFATAL|FATAL)\)'
unfoldable pub vlog_pattern : Regex
vlog_pattern =
    boundary
    ⊙ lit "VLOG("
    ⊙ any_of ("INFO" ∷ "ERROR" ∷ "WARNING" ∷ "DFATAL" ∷ "FATAL" ∷ [])
    ⊙ one b')'

unfoldable pub check_vlog_arguments : Text → CleansedLines → ℕ → Handler → Globals → Globals
unfolding vlog_pattern
check_vlog_arguments filename clean_lines linenum error g =
    if occurs vlog_pattern (get_or clean_lines.elided linenum [])
    then error filename linenum (text "runtime/vlog") 5
        (text "VLOG() should be used with numeric verbosity level.  "
          ++ text "Use LOG() if you want symbolic severity levels.")
        g
    else g

-- r'^\s*\*\w+(\+\+|--);'
unfoldable pub invalid_increment : Regex
invalid_increment =
    line_start ⊙ spaces ⊙ one b'*' ⊙ plus word ⊙ any_of ("++" ∷ "--" ∷ []) ⊙ one b';'

unfoldable pub check_invalid_increment : Text → CleansedLines → ℕ → Handler → Globals → Globals
unfolding invalid_increment
check_invalid_increment filename clean_lines linenum error g =
    if matches invalid_increment (get_or clean_lines.elided linenum [])
    then error filename linenum (text "runtime/invalid_increment") 5
        (text "Changing pointer instead of value (or unused value of operator*).") g
    else g

-- r'\s*#\s*include\s+[<"]([^<"]+)[">]'
unfoldable pub include_name : Regex
include_name =
    spaces
    ⊙ one b'#'
    ⊙ spaces
    ⊙ lit "include"
    ⊙ plus space
    ⊙ one_of "<\""
    ⊙ group 1 (plus (none_of "<\""))
    ⊙ one_of "\">"

unfoldable pub unapproved_headers : List Text
unapproved_headers =
    text "cfenv"
    ∷ text "condition_variable"
    ∷ text "fenv.h"
    ∷ text "future"
    ∷ text "mutex"
    ∷ text "thread"
    ∷ text "chrono"
    ∷ text "ratio"
    ∷ text "regex"
    ∷ text "system_error"
    ∷ []

unfoldable pub flag_header : Text → Text → ℕ → Handler → Globals → Globals
unfolding include_name unapproved_headers
flag_header filename line linenum error g = elim (match include_name line) [
  | none ↦ g
  | some m ↦
      if member (group_text 1 m) unapproved_headers
      then error filename linenum (text "build/c++11") 5
          (text "<" ++ (group_text 1 m ++ text "> is an unapproved C++11 header.")) g
      else g
]

unfoldable pub flag_name : Text → Text → ℕ → Handler → String → Globals → Globals
flag_name filename line linenum error top_name g =
    if occurs (boundary ⊙ lit "std::" ⊙ lit top_name ⊙ boundary) line
    then error filename linenum (text "build/c++11") 5
        (text "std::"
          ++ (text top_name
              ++ (text " is an unapproved C++11 class or function.  Send c-style "
                  ++ (text "an example of where it would make your code more readable, and "
                      ++ text "they may let you use it."))))
        g
    else g

-- r'\s*#' and r'\s*#\s*define\b'
unfoldable pub is_directive : Text → Bool
is_directive line = matches (spaces ⊙ one b'#') line

unfoldable pub is_define : Text → Bool
is_define line = matches (spaces ⊙ one b'#' ⊙ spaces ⊙ lit "define" ⊙ boundary) line

unfoldable pub flag_cxx11_features : Text → CleansedLines → ℕ → Handler → Globals → Globals
unfolding is_directive is_define
flag_cxx11_features filename clean_lines linenum error g =
    let line = get_or clean_lines.elided linenum [] in
    let g1 = flag_header filename line linenum error g in
    if is_directive line && not (is_define line)
    then g1
    else flag_name filename line linenum error "aligned_union"
        (flag_name filename line linenum error "alignment_of" g1)
