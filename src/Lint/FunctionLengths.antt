-- ===== src/Lint/FunctionLengths.antt =====
-- `CheckForFunctionLengths` of scripts/cpplint.py: where a function starts and ends.
use epiphany_bsp.Base.{
  ℕ, ◌||◌, Bool, false, not, none, some, List, [], ◌∷◌, ◌++◌, drop, get_or, if◌then◌else◌,
}
use epiphany_bsp.Base.Text.{Text, text, equal, words, unicode_lstrip}
use epiphany_bsp.Regex.{
  Regex, ◌⊙◌, ◌⊕◌, lit, one, one_of, any_char, star, plus, group, space, spaces, word, line_start,
  line_end, match, search_in, matches, occurs, group_text,
}
use epiphany_bsp.Lint.Report.{Globals, Handler}
use epiphany_bsp.Lint.Cleanse.{CleansedLines}
use epiphany_bsp.Lint.FunctionState
use epiphany_bsp.Lint.FunctionState.{FunctionState, begin, check, end_function}

-- r'(\w(\w|::|\*|\&|\s)*)\('
unfoldable pub declaration : Regex
declaration = group 1 (word ⊙ star (word ⊕ lit "::" ⊕ one b'*' ⊕ one b'&' ⊕ space)) ⊙ one b'('

abbrev last_word : List Text → Text
last_word [] = []
last_word (w ∷ []) = w
last_word (w ∷ v ∷ ws) = last_word (v ∷ ws)

-- r'[A-Z_]+$'
unfoldable pub macro_name : Regex
macro_name = plus (one_of "ABCDEFGHIJKLMNOPQRSTUVWXYZ_") ⊙ line_end

unfoldable pub is_starting : Text → Bool
unfolding declaration macro_name
is_starting line = elim (match declaration line) [
  | none ↦ false
  | some m ↦
      let function_name = last_word (words (group_text 1 m)) in
      equal function_name (text "TEST")
      || equal function_name (text "TEST_F")
      || not (matches macro_name function_name)
]

-- What the search for the body finds: nothing, a declaration or trivial function, or a body.
pub data Body : Type 0 where
  no_body declared : Body
  body_of : Text → Body

-- r'((\w|:)*)\(' and r'(\(.*\))'
unfoldable pub function_pattern : Regex
function_pattern = group 1 (star (word ⊕ one b':')) ⊙ one b'('

unfoldable pub parameter_pattern : Regex
parameter_pattern = group 1 (one b'(' ⊙ star any_char ⊙ one b')')

unfoldable pub function_of : Text → Text → Text
unfolding function_pattern parameter_pattern
function_of line joined_line =
    let function : Text = elim (search_in function_pattern line) [
      | none ↦ []
      | some m ↦ group_text 1 m
    ] in
    if matches (lit "TEST") function
    then elim (search_in parameter_pattern joined_line) [
      | none ↦ function
      | some m ↦ function ++ group_text 1 m
    ]
    else function ++ text "()"

-- the search on the lines from the function's first one on
unfoldable pub find_body : Text → Text → List Text → Body
unfolding function_of
find_body line joined_line [] = no_body
find_body line joined_line (start_line ∷ lines) =
    let joined = joined_line ++ (text " " ++ unicode_lstrip start_line) in
    let later = find_body line joined lines in
    if occurs (one_of ";}") start_line
    then declared
    else if occurs (one b'{') start_line
    then body_of (function_of line joined)
    else later

-- r'^\}\s*$' and r'^\s*$'
unfoldable pub function_end : Regex
function_end = line_start ⊙ one b'}' ⊙ spaces ⊙ line_end

unfoldable pub blank : Regex
blank = line_start ⊙ spaces ⊙ line_end

unfoldable pub start_function :
    Text → ℕ → Body → Handler → FunctionState × Globals → FunctionState × Globals
start_function filename linenum no_body error (s, g) = (
  s,
  error filename linenum (text "readability/fn_size") 5
      (text "Lint failed to find start of function body.") g,
)
start_function filename linenum declared error (s, g) = (s, g)
start_function filename linenum (body_of function) error (s, g) = (begin function s, g)

unfoldable pub check_for_function_lengths :
    Text → CleansedLines → ℕ → Handler → FunctionState × Globals → FunctionState × Globals
unfolding start_function find_body
check_for_function_lengths filename clean_lines linenum error (s, g) =
    let line = get_or clean_lines.lines linenum [] in
    if is_starting line
    then start_function filename linenum (find_body line [] (drop linenum clean_lines.lines)) error
        (s, g)
    else if matches function_end line
    then (end_function s, check error filename linenum s g)
    else if matches blank line
    then (s, g)
    else (FunctionState.count s, g)
