-- ===== src/Lint/HeaderGuard.antt =====
-- The header guard of a `.h` file: `GetHeaderGuardCPPVariable` and `CheckForHeaderGuard` of
-- scripts/cpplint.py. `_root` is the flag's value, a piece of a pattern.
pub mod Names
pub mod Guards
use epiphany_bsp.Base.{
  ℕ, zero, suc, ◌-◌, Bool, true, false, not, ◌&&◌, ◌||◌, Option, none, some, List, [], ◌∷◌, ◌++◌,
  length, take, drop, get_or, any, map, leb, if◌then◌else◌,
}
use epiphany_bsp.Base.Text.{Text, text, equal, starts_with, replace, upper, words}
use epiphany_bsp.Regex.Compile.{pattern}
use epiphany_bsp.Regex.{
  Regex, Found, ◌⊙◌, ◌⊕◌, lit, codes, one, none_of, star, opt, group, spaces, line_start, line_end,
  boundary, match, matches, occurs, group_of, group_text, replace_all, replace_with,
}
use epiphany_bsp.Lint.Report.{Globals, Handler, parse_nolint_suppressions}
use epiphany_bsp.Lint.Cleanse.{CleansedLines}
use epiphany_bsp.Lint.FileInfo.{FileSystem, repository_name}

-- the name before Emacs's flymake changed it, without `c++`
unfoldable pub original_name : Text → Text
original_name filename =
    let name = replace_all (lit "_flymake.h" ⊙ line_end) (text ".h") filename in
    let direct =
      replace_with (lit "/.flymake/" ⊙ group 1 (star (none_of "/")) ⊙ line_end)
        (λ m. b'/' ∷ group_text 1 m) name in
    replace (replace direct (text "C++") (text "cpp")) (text "c++") (text "cpp")

unfoldable pub path_from_root : Option Text → Text → Text
path_from_root none path = path
path_from_root (some root) path = replace_all (pattern (b'^' ∷ (root ++ b'/' ∷ []))) [] path

-- `re.sub(r'[^a-zA-Z0-9]', '_', s)` writes one character for one.
abbrev pub is_alphanumeric : ℕ → Bool
is_alphanumeric c = (leb 97 c && leb c 122) || (leb 65 c && leb c 90) || (leb 48 c && leb c 57)

abbrev pub guard_char : ℕ → ℕ
guard_char c = if is_alphanumeric c then c else b'_'

unfoldable pub guard_of : Text → Text
unfolding upper
guard_of path = upper (map guard_char path) ++ b'_' ∷ []

unfoldable pub get_header_guard_cpp_variable : FileSystem → Option Text → Text → Text
unfolding guard_of original_name path_from_root
get_header_guard_cpp_variable fs root filename =
    guard_of (path_from_root root (repository_name fs (original_name filename)))

-- what the walk over the lines finds
pub record GuardLines : Type 0 where
  pub ifndef : Text
  pub ifndef_linenum : ℕ
  pub define : Text
  pub endif : Text
  pub endif_linenum : ℕ

unfoldable pub no_guard : GuardLines
no_guard = record { ifndef = []; ifndef_linenum = 0; define = []; endif = []; endif_linenum = 0 }

abbrev pub is_empty : Text → Bool
is_empty [] = true
is_empty (c ∷ s) = false

unfoldable pub see_ifndef : ℕ → List Text → GuardLines → GuardLines
see_ifndef linenum (directive ∷ name ∷ more) s =
    if is_empty s.ifndef && equal directive (text "#ifndef")
    then record s { ifndef = name; ifndef_linenum = linenum }
    else s
see_ifndef linenum _ s = s

unfoldable pub see_define : List Text → GuardLines → GuardLines
see_define (directive ∷ name ∷ more) s =
    if is_empty s.define && equal directive (text "#define") then record s { define = name } else s
see_define _ s = s

unfoldable pub see_endif : ℕ → Text → GuardLines → GuardLines
see_endif linenum line s =
    if starts_with line (text "#endif")
    then record s { endif = line; endif_linenum = linenum }
    else s

unfoldable pub guard_lines_from : ℕ → List Text → GuardLines → GuardLines
guard_lines_from linenum [] s = s
guard_lines_from linenum (line ∷ lines) s =
    guard_lines_from (suc linenum) lines
      (see_endif linenum line (see_define (words line) (see_ifndef linenum (words line) s)))

unfoldable pub guard_lines : List Text → GuardLines
unfolding guard_lines_from no_guard
guard_lines raw_lines = guard_lines_from 0 raw_lines no_guard

-- r'//\s*NOLINT\(build/header_guard\)'
unfoldable pub suppressed : Regex
suppressed = lit "//" ⊙ spaces ⊙ lit "NOLINT(build/header_guard)"

-- r'#endif\s*//\s*VAR(_)?\b' and r'#endif\s*/\*\s*VAR(_)?\s*\*/'
unfoldable pub endif_line_comment : Text → Regex
endif_line_comment cppvar =
    lit "#endif" ⊙ spaces ⊙ lit "//" ⊙ spaces ⊙ codes cppvar ⊙ opt (group 1 (one b'_')) ⊙ boundary

unfoldable pub endif_c_comment : Text → Regex
endif_c_comment cppvar =
    lit "#endif"
    ⊙ spaces
    ⊙ lit "/*"
    ⊙ spaces
    ⊙ codes cppvar
    ⊙ opt (group 1 (one b'_'))
    ⊙ spaces
    ⊙ lit "*/"

-- r'^(?:(?:\'(?:\.|[^\'])*\')|(?:"(?:\.|[^"])*")|[^\'"])*//'
unfoldable pub line_comment : Regex
line_comment =
    line_start
    ⊙ star (
        (one b'\'' ⊙ star (one b'.' ⊕ none_of "'") ⊙ one b'\'')
        ⊕ (one b'"' ⊙ star (one b'.' ⊕ none_of "\"") ⊙ one b'"')
        ⊕ none_of "'\"")
    ⊙ lit "//"

unfoldable pub no_single_line_comments : List Text → Bool
no_single_line_comments raw_lines =
    not (any (matches line_comment) (take (length raw_lines - 2) (drop 1 raw_lines)))

-- the low severity warning for a second underscore
unfoldable pub warn_underscore : Text → ℕ → Text → Found → Handler → Globals → Globals
warn_underscore filename linenum message m error g = elim (group_of 1 m.groups) [
  | none ↦ g
  | some underscore ↦ error filename linenum (text "build/header_guard") 0 message g
]

unfoldable pub check_endif : Text → List Text → Text → GuardLines → Handler → Globals → Globals
check_endif filename raw_lines cppvar s error g =
    let wanted = text "#endif line should be \"#endif  // " ++ (cppvar ++ text "\"") in
    let wanted_c = text "#endif line should be \"#endif  /* " ++ (cppvar ++ text " */\"") in
    let failed = error filename s.endif_linenum (text "build/header_guard") 5 wanted g in
    elim (match (endif_line_comment cppvar) s.endif) [
      | some m ↦ warn_underscore filename s.endif_linenum wanted m error g
      | none ↦
          if no_single_line_comments raw_lines
          then elim (match (endif_c_comment cppvar) s.endif) [
            | some m ↦ warn_underscore filename s.endif_linenum wanted_c m error g
            | none ↦ failed
          ]
          else failed
    ]

unfoldable pub check_style : Text → List Text → Text → GuardLines → Handler → Globals → Globals
check_style filename raw_lines cppvar s error g =
    if equal s.ifndef cppvar
    then g
    else error filename s.ifndef_linenum (text "build/header_guard")
        (if equal s.ifndef (cppvar ++ b'_' ∷ []) then 0 else 5)
        (text "#ifndef header guard has wrong style, please use: " ++ cppvar)
        (parse_nolint_suppressions filename (get_or raw_lines s.ifndef_linenum []) s.ifndef_linenum
          error g)

unfoldable pub has_guard : GuardLines → Bool
has_guard s = not (is_empty s.ifndef) && not (is_empty s.define) && equal s.ifndef s.define

unfoldable pub check_guard : Text → List Text → Text → GuardLines → Handler → Globals → Globals
check_guard filename raw_lines cppvar s error g =
    if has_guard s
    then check_endif filename raw_lines cppvar s error (
        parse_nolint_suppressions filename (get_or raw_lines s.endif_linenum []) s.endif_linenum
          error (check_style filename raw_lines cppvar s error g))
    else error filename 0 (text "build/header_guard") 5
        (text "No #ifndef header guard found, suggested CPP variable is: " ++ cppvar) g

unfoldable pub check_for_header_guard :
    FileSystem → Option Text → Text → CleansedLines → Handler → Globals → Globals
unfolding guard_lines suppressed
check_for_header_guard fs root filename clean_lines error g =
    let raw_lines = clean_lines.lines_without_raw_strings in
    if any (occurs suppressed) raw_lines
    then g
    else check_guard filename raw_lines (get_header_guard_cpp_variable fs root filename)
        (guard_lines raw_lines) error g
