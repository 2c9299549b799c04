-- ===== src/Lint/Cleanse/Strings.antt =====
-- String and character literals within a line: `CleansedLines._CollapseStrings` of
-- scripts/cpplint.py. The loop runs on fuel, one more than the line's length.
use epiphany_bsp.Base.{
  ℕ, zero, suc, ◌+◌, ◌||◌, ◌&&◌, Option, none, some, [], ◌∷◌, ◌++◌, length, drop, leb,
  if◌then◌else◌,
}
use epiphany_bsp.Base.Text.{Text, text, equal, find, replace}
use epiphany_bsp.Regex.{
  Regex, ◌⊙◌, ◌⊕◌, line_start, line_end, spaces, one, lit, one_of, none_of, group, star, plus, opt,
  any_char, digit, boundary, char, is_word, match, matches, occurs, group_text, replace_all,
}

-- r'^\s*#\s*include\s*([<"])([^>"]*)[>"].*$'
unfoldable pub include_pattern : Regex
include_pattern =
    line_start
    ⊙ spaces
    ⊙ one b'#'
    ⊙ spaces
    ⊙ lit "include"
    ⊙ spaces
    ⊙ group 1 (one_of "<\"")
    ⊙ group 2 (star (none_of ">\""))
    ⊙ one_of ">\""
    ⊙ star any_char
    ⊙ line_end

abbrev hex_digit : Regex
hex_digit = char (λ c. (leb 48 c && leb c 57) || (leb 97 c && leb c 102) || (leb 65 c && leb c 70))

-- r'\\([abfnrtv?"\\\']|\d+|x[0-9a-fA-F]+)'
unfoldable pub cleanse_line_escapes : Regex
cleanse_line_escapes =
    one b'\\' ⊙ group 1 (one_of "abfnrtv?\"\\'" ⊕ plus digit ⊕ (one b'x' ⊙ plus hex_digit))

-- r'^([^\'"]*)([\'"])(.*)$'
unfoldable pub first_quote : Regex
first_quote =
    line_start
    ⊙ group 1 (star (none_of "'\""))
    ⊙ group 2 (one_of "'\"")
    ⊙ group 3 (star any_char)
    ⊙ line_end

-- r'\b(?:0[bBxX]?|[1-9])[0-9a-fA-F]*$'
unfoldable pub number_before : Regex
number_before =
    boundary
    ⊙ ((one b'0' ⊙ opt (one_of "bBxX")) ⊕ char (λ c. leb 49 c && leb c 57))
    ⊙ star hex_digit
    ⊙ line_end

-- r'^((?:\'?[0-9a-zA-Z_])*)(.*)$'
unfoldable pub literal_rest : Regex
literal_rest =
    line_start
    ⊙ group 1 (star (opt (one b'\'') ⊙ char is_word))
    ⊙ group 2 (star any_char)
    ⊙ line_end

-- One round of the loop at a quote: what is appended to `collapsed`, and what is left of `elided`;
-- `none` where the loop ends and the rest of the line is appended as it is.
unfoldable pub collapse_double : Text → Text → Option (Text × Text)
collapse_double head tail = elim (find tail (text "\"")) [
  | some second_quote ↦ some (head ++ text "\"\"", drop (second_quote + 1) tail)
  | none ↦ none
]

unfoldable pub collapse_single : Text → Text → Option (Text × Text)
collapse_single head tail =
    if occurs number_before head
    then elim (match literal_rest (b'\'' ∷ tail)) [
      | some m ↦ some (head ++ replace (group_text 1 m) (text "'") [], group_text 2 m)
      | none ↦ none
    ]
    else elim (find tail (text "'")) [
      | some second_quote ↦ some (head ++ text "''", drop (second_quote + 1) tail)
      | none ↦ none
    ]

unfoldable pub collapse_step : Text → Option (Text × Text)
unfolding collapse_double collapse_single
collapse_step elided = elim (match first_quote elided) [
  | none ↦ none
  | some m ↦
      if equal (group_text 2 m) (text "\"")
      then collapse_double (group_text 1 m) (group_text 3 m)
      else collapse_single (group_text 1 m) (group_text 3 m)
]

unfoldable pub collapse_from : ℕ → Text → Text → Text
collapse_from zero elided collapsed = collapsed ++ elided
collapse_from (suc f) elided collapsed = elim (collapse_step elided) [
  | none ↦ collapsed ++ elided
  | some (front, rest) ↦ collapse_from f rest (collapsed ++ front)
]

unfoldable pub collapse_strings : Text → Text
unfolding collapse_from
collapse_strings elided =
    if matches include_pattern elided
    then elided
    else let clean = replace_all cleanse_line_escapes [] elided in
      (collapse_from (suc (length clean)) clean [])
