-- ===== src/Lint/Includes.antt =====
-- The lines with `#include` in scripts/cpplint.py: which kind of header a line includes, and the
-- checks on it.
pub mod Stems
use epiphany_bsp.Base.{
  ℕ, ◌-◌, Bool, false, not, ◌&&◌, ◌||◌, Option, none, some, List, [], ◌∷◌, ◌++◌, length, take,
  get_or, map, ltb, ◌==◌, if◌then◌else◌,
}
use epiphany_bsp.Base.Text.{Text, text, equal, member, ends_with, starts_with, split, decimal}
use epiphany_bsp.Regex.{
  Regex, Found, ◌⊙◌, ◌⊕◌, lit, one, one_of, none_of, any_char, star, plus, group, spaces,
  line_start, line_end, match, search_in, matches, group_text,
}
use epiphany_bsp.Lint.Report.{Globals, Handler}
use epiphany_bsp.Lint.Cleanse.{CleansedLines}
use epiphany_bsp.Lint.CppHeaders.{cpp_headers}
use epiphany_bsp.Lint.FileInfo.{
  FileSystem, repository_name, base_name, dirname, split_path, splitext,
}
use epiphany_bsp.Lint.IncludeState.{
  IncludeState, HeaderType, c_sys_header, cpp_sys_header, likely_my_header, possible_my_header,
  other_header, find_header, add_header, check_next_include_order, canonicalize_alphabetical_order,
  is_in_alphabetical_order, set_last_header,
}

unfoldable pub common_suffixes : List Text
common_suffixes =
    text "test.cc"
    ∷ text "regtest.cc"
    ∷ text "unittest.cc"
    ∷ text "inl.h"
    ∷ text "impl.h"
    ∷ text "internal.h"
    ∷ []

abbrev is_separator : ℕ → Bool
is_separator c = c == b'-' || c == b'_'

-- the file name without the suffix and its separator, if it has them
unfoldable pub drop_suffix : Text → Text → Option Text
drop_suffix filename suffix =
    if ends_with filename suffix
      && ltb (length suffix) (length filename)
      && is_separator (get_or filename (length filename - length suffix - 1) 0)
    then some (take (length filename - length suffix - 1) filename)
    else none

unfoldable pub drop_first_suffix : Text → List Text → Text
unfolding drop_suffix
drop_first_suffix filename [] = (splitext filename).0
drop_first_suffix filename (suffix ∷ suffixes) = elim (drop_suffix filename suffix) [
  | some stem ↦ stem
  | none ↦ drop_first_suffix filename suffixes
]

unfoldable pub drop_common_suffixes : Text → Text
unfolding drop_first_suffix common_suffixes
drop_common_suffixes filename = drop_first_suffix filename common_suffixes

unfoldable pub is_test_filename : Text → Bool
is_test_filename filename =
    ends_with filename (text "_test.cc")
    || ends_with filename (text "_unittest.cc")
    || ends_with filename (text "_regtest.cc")

-- `os.path.normpath`: the components so far, last one first
abbrev norm_step : Bool → Text → List Text → List Text
norm_step rooted comp comps =
    if equal comp [] || equal comp (text ".")
    then comps
    else if equal comp (text "..")
    then elim comps [
      | [] ↦ if rooted then [] else comp ∷ []
      | c ∷ rest ↦ if equal c (text "..") then comp ∷ c ∷ rest else rest
    ]
    else comp ∷ comps

abbrev norm_steps : Bool → List Text → List Text → List Text
norm_steps rooted [] comps = comps
norm_steps rooted (comp ∷ more) comps = norm_steps rooted more (norm_step rooted comp comps)

abbrev joined : List Text → Text → Text
joined [] path = path
joined (c ∷ rest) [] = joined rest c
joined (c ∷ rest) (d ∷ path) = joined rest (c ++ b'/' ∷ d ∷ path)

abbrev initial_slashes : Text → Text
initial_slashes path =
    if starts_with path (text "//") && not (starts_with path (text "///"))
    then text "//"
    else if starts_with path (text "/")
    then text "/"
    else []

unfoldable pub norm_path : Text → Text
norm_path path =
    let rooted = starts_with path (text "/") in
    let norm = initial_slashes path ++ joined (norm_steps rooted (split path b'/') []) [] in
    if equal norm [] then text "." else norm

-- r'^[^-_.]+'
unfoldable pub first_component : Text → Option Found
first_component s = match (line_start ⊙ plus (none_of "-_.")) s

unfoldable pub share_first_component : Text → Text → Bool
unfolding first_component
share_first_component target include = elim (first_component target) [
  | none ↦ false
  | some t ↦ elim (first_component include) [ none ↦ false | some i ↦ equal t.covered i.covered ]
]

unfoldable pub is_likely_mine : Text × Text → Text × Text → Bool
unfolding norm_path
is_likely_mine (target_dir, target_base) (include_dir, include_base) =
    equal target_base include_base
    && (equal include_dir target_dir
        || equal include_dir (norm_path (target_dir ++ text "/../public")))

-- on the repository's name of the file
unfoldable pub classify_include : Text → Text → Bool → HeaderType
unfolding is_likely_mine share_first_component
classify_include repository_name include is_system =
    let target = split_path (drop_common_suffixes repository_name) in
    let inner = split_path (drop_common_suffixes include) in
    if is_system
    then (if member include (map text cpp_headers) then cpp_sys_header else c_sys_header)
    else if is_likely_mine target inner
    then likely_my_header
    else if share_first_component (target.1) (inner.1)
    then possible_my_header
    else other_header

-- r'^(?:[^/]*[A-Z][^/]*\.h|lua\.h|lauxlib\.h|lualib\.h)$'
unfoldable pub third_party_headers : Regex
third_party_headers =
    line_start
    ⊙ ((star (none_of "/") ⊙ one_of "ABCDEFGHIJKLMNOPQRSTUVWXYZ" ⊙ star (none_of "/") ⊙ lit ".h")
        ⊕ lit "lua.h"
        ⊕ lit "lauxlib.h"
        ⊕ lit "lualib.h")
    ⊙ line_end

-- r'#include\s*"([^/]+\.h)"'
unfoldable pub bare_include : Regex
bare_include =
    lit "#include" ⊙ spaces ⊙ one b'"' ⊙ group 1 (plus (none_of "/") ⊙ lit ".h") ⊙ one b'"'

-- r'^\s*#\s*include\s*([<"])([^>"]*)[>"].*$'
unfoldable pub include_line : Regex
include_line =
    line_start
    ⊙ spaces
    ⊙ one b'#'
    ⊙ spaces
    ⊙ lit "include"
    ⊙ spaces
    ⊙ group 1 (one_of "<\"")
    ⊙ group 2 (star (none_of ">\""))
    ⊙ one_of ">\""
    ⊙ star any_char
    ⊙ line_end

unfoldable pub check_directory : Text → Text → ℕ → Handler → Globals → Globals
check_directory line filename linenum error g = elim (match bare_include line) [
  | none ↦ g
  | some m ↦
      if matches third_party_headers (group_text 1 m)
      then g
      else error filename linenum (text "build/include") 4
          (text "Include the directory when naming .h files") g
]

module _ (fs : FileSystem) (to_lower : Text → Text) where
  -- the header is recorded, and its place among the others is checked
  unfoldable pub record_include :
      Text
      → CleansedLines
      → ℕ
      → Text
      → Bool
      → Handler
      → IncludeState × Globals
      → IncludeState × Globals
  record_include filename clean_lines linenum include is_system error (s, g) =
      let (s1, message) =
        check_next_include_order (classify_include (repository_name fs filename) include is_system)
          (add_header include linenum s) in
      let g1 =
        if equal message []
        then g
        else error filename linenum (text "build/include_order") 4
            (message
              ++ (text ". Should be: "
                  ++ (base_name fs filename ++ text ".h, c system, c++ system, other.")))
            g in
      let canonical_include = canonicalize_alphabetical_order to_lower include in
      let g2 =
        if is_in_alphabetical_order clean_lines.elided linenum canonical_include s1
        then g1
        else error filename linenum (text "build/include_alpha") 4
            (text "Include \"" ++ (include ++ text "\" not in alphabetical order")) g1 in
      (set_last_header canonical_include s1, g2)

  unfoldable pub check_include :
      Text
      → CleansedLines
      → ℕ
      → Text
      → Bool
      → Handler
      → IncludeState × Globals
      → IncludeState × Globals
  unfolding record_include
  check_include filename clean_lines linenum include is_system error (s, g) =
      elim (find_header include s) [
        | some duplicate_line ↦ (
          s,
          error filename linenum (text "build/include") 4
              (text "\""
                ++ (include
                    ++ (text "\" already included at "
                        ++ (filename ++ (text ":" ++ decimal duplicate_line)))))
              g,
        )
        | none ↦
            if ends_with include (text ".cc")
              && not (equal (dirname (repository_name fs filename)) (dirname include))
            then (
              s,
              error filename linenum (text "build/include") 4
                  (text "Do not include .cc files from other packages") g,
            )
            else if matches third_party_headers include
            then (s, g)
            else record_include filename clean_lines linenum include is_system error (s, g)
      ]

  unfoldable pub check_include_line :
      Text → CleansedLines → ℕ → Handler → IncludeState × Globals → IncludeState × Globals
  unfolding check_include check_directory
  check_include_line filename clean_lines linenum error (s, g) =
      let line = get_or clean_lines.lines linenum [] in
      let g1 = check_directory line filename linenum error g in
      elim (search_in include_line line) [
        | none ↦ (s, g1)
        | some m ↦
            check_include filename clean_lines linenum (group_text 2 m)
              (equal (group_text 1 m) (text "<")) error (s, g1)
      ]
