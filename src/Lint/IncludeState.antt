-- ===== src/Lint/IncludeState.antt =====
-- `_IncludeState` of scripts/cpplint.py: the headers seen so far, and the order in which they come.
pub mod Order
pub mod Headers
use epiphany_bsp.Base.{
  ℕ, ◌-◌, Bool, true, false, not, ◌&&◌, ◌||◌, Option, none, some, List, [], ◌∷◌, ◌++◌, get_or, leb,
  ◌==◌, if◌then◌else◌,
}
use epiphany_bsp.Base.Text.{Text, text, equal, less, member, lower, replace}
use epiphany_bsp.Regex.{Regex, ◌⊙◌, line_start, spaces, one, lit, boundary, matches}

pub data HeaderType : Type 0 where
  c_sys_header cpp_sys_header likely_my_header possible_my_header other_header : HeaderType

abbrev pub initial_section : ℕ
initial_section = 0

abbrev pub my_h_section : ℕ
my_h_section = 1

abbrev pub c_section : ℕ
c_section = 2

abbrev pub cpp_section : ℕ
cpp_section = 3

abbrev pub other_h_section : ℕ
other_h_section = 4

-- `include_list` is a list of lists of headers with their lines; `last_header` is a canonical path.
pub record IncludeState : Type 0 where
  pub include_list : List (List (Text × ℕ))
  pub section : ℕ
  pub last_header : Text

unfoldable pub type_name : HeaderType → Text
type_name c_sys_header = text "C system header"
type_name cpp_sys_header = text "C++ system header"
type_name likely_my_header = text "header this file implements"
type_name possible_my_header = text "header this file may implement"
type_name other_header = text "other header"

unfoldable pub section_name : ℕ → Text
section_name n =
    if n == initial_section
    then text "... nothing. (This can't be an error.)"
    else if n == my_h_section
    then text "a header this file implements"
    else if n == c_section
    then text "C system header"
    else if n == cpp_section
    then text "C++ system header"
    else text "other header"

-- `FindHeader`, with `none` for -1
unfoldable pub find_in_section : Text → List (Text × ℕ) → Option ℕ
find_in_section header [] = none
find_in_section header ((h, n) ∷ rest) =
    if equal h header then some n else find_in_section header rest

unfoldable pub find_in_list : Text → List (List (Text × ℕ)) → Option ℕ
find_in_list header [] = none
find_in_list header (section_list ∷ rest) = elim (find_in_section header section_list) [
  | some n ↦ some n
  | none ↦ find_in_list header rest
]

unfoldable pub find_header : Text → IncludeState → Option ℕ
find_header header s = find_in_list header s.include_list

-- `include_list[-1] = …` and `include_list[-1].append(…)`, on a list that is not empty
unfoldable pub clear_last : List (List (Text × ℕ)) → List (List (Text × ℕ))
clear_last [] = []
clear_last (l ∷ []) = [] ∷ []
clear_last (l ∷ m ∷ rest) = l ∷ clear_last (m ∷ rest)

unfoldable pub append_last : Text × ℕ → List (List (Text × ℕ)) → List (List (Text × ℕ))
append_last e [] = []
append_last e (l ∷ []) = (l ++ e ∷ []) ∷ []
append_last e (l ∷ m ∷ rest) = l ∷ append_last e (m ∷ rest)

-- the update of `include_list` by a preprocessor directive
unfoldable pub reset_list : Text → List (List (Text × ℕ)) → List (List (Text × ℕ))
reset_list directive lists =
    if member directive (text "if" ∷ text "ifdef" ∷ text "ifndef" ∷ [])
    then lists ++ [] ∷ []
    else if member directive (text "else" ∷ text "elif" ∷ [])
    then clear_last lists
    else lists

unfoldable pub reset_section : Text → IncludeState → IncludeState
reset_section directive s = record {
  include_list = reset_list directive s.include_list;
  section = initial_section;
  last_header = [];
}

-- `__init__`
unfoldable pub initial : IncludeState
unfolding reset_section
initial =
    reset_section []
      (record { include_list = [] ∷ []; section = initial_section; last_header = [] })

unfoldable pub set_last_header : Text → IncludeState → IncludeState
set_last_header header_path s = record s { last_header = header_path }

-- `include_state.include_list[-1].append((include, linenum))` of `CheckIncludeLine`
unfoldable pub add_header : Text → ℕ → IncludeState → IncludeState
add_header header linenum s = record s {
  include_list = append_last (header, linenum) s.include_list;
}

-- The line is a unicode text, whose `lower()` is an argument.
unfoldable pub canonicalize_alphabetical_order : (Text → Text) → Text → Text
canonicalize_alphabetical_order to_lower header_path =
    to_lower (replace (replace header_path (text "-inl.h") (text ".h")) (b'-' ∷ []) (b'_' ∷ []))

-- r'^\s*#\s*include\b'
unfoldable pub include_directive : Regex
include_directive = line_start ⊙ spaces ⊙ one b'#' ⊙ spaces ⊙ lit "include" ⊙ boundary

abbrev pub last_line : List Text → Text
last_line [] = []
last_line (l ∷ []) = l
last_line (l ∷ m ∷ rest) = last_line (m ∷ rest)

-- `lines[n - 1]`, which for `n = 0` is the last line
unfoldable pub line_above : List Text → ℕ → Text
line_above lines n = if n == 0 then last_line lines else get_or lines (n - 1) []

unfoldable pub is_in_alphabetical_order : List Text → ℕ → Text → IncludeState → Bool
is_in_alphabetical_order elided linenum header_path s =
    not (less header_path s.last_header && matches include_directive (line_above elided linenum))

-- the new section, or `none` for an error
unfoldable pub next_section : HeaderType → ℕ → Option ℕ
next_section c_sys_header section = if leb section c_section then some c_section else none
next_section cpp_sys_header section = if leb section cpp_section then some cpp_section else none
next_section likely_my_header section =
    if leb section my_h_section then some my_h_section else some other_h_section
next_section possible_my_header section =
    if leb section my_h_section then some my_h_section else some other_h_section
next_section other_header section = some other_h_section

-- `CheckNextIncludeOrder`: the new state, and the error message or the empty text
unfoldable pub check_next_include_order : HeaderType → IncludeState → IncludeState × Text
unfolding next_section
check_next_include_order header_type s = elim (next_section header_type s.section) [
  | none ↦ (
    record s { last_header = [] },
    text "Found " ++ (type_name header_type ++ (text " after " ++ section_name s.section)),
  )
  | some section ↦ (
    record s {
      section = section;
      last_header = if s.section == section then s.last_header else [];
    },
    [],
  )
]
