-- ===== src/Lint/Nesting/Update/Template.antt =====
-- `NestingState.InTemplateArgumentList` of scripts/cpplint.py. The fuel is one more than the number
-- of characters and lines of the file.
use epiphany_bsp.Base.{
  ℕ, zero, suc, ◌+◌, ◌-◌, Bool, true, false, not, none, some, List, [], ◌∷◌, length, drop, get_or,
  ltb, leb, ◌==◌, if◌then◌else◌,
}
use epiphany_bsp.Base.Text.{Text}
use epiphany_bsp.Regex.{
  Regex, ◌⊙◌, line_start, star, none_of, any_char, group, match, group_text, one_of_codes,
}
use epiphany_bsp.Lint.Expression.{close_expression}

-- r'^[^{};=\[\]\.<>]*(.)'
unfoldable pub argument_token : Regex
argument_token = line_start ⊙ star (none_of "{};=[].<>") ⊙ group 1 any_char

abbrev pub first_char : Text → ℕ
first_char [] = 0
first_char (c ∷ s) = c

-- one round of the loop: an answer, or the next line and position
pub data Round : Type 0 where
  answer : Bool → Round
  go_on : ℕ → ℕ → Round

-- the round at a token; `pos` is the position behind it
unfoldable pub at_argument_token : List Text → Text → ℕ → ℕ → ℕ → Round
at_argument_token elided line linenum pos token =
    if one_of_codes (b'{' ∷ b'}' ∷ b';' ∷ []) token
    then answer false
    else if one_of_codes (b'>' ∷ b'=' ∷ b'[' ∷ b']' ∷ b'.' ∷ []) token
    then answer true
    else if not (token == b'<')
    then (if leb (length line) (pos + 1) then go_on (linenum + 1) 0 else go_on linenum (pos + 1))
    else let place = close_expression elided linenum (pos - 1) in
      (elim place.pos [ none ↦ answer false | some p ↦ go_on place.linenum p ])

unfoldable pub argument_round : List Text → ℕ → ℕ → Round
unfolding at_argument_token argument_token
argument_round elided linenum pos =
    let line = get_or elided linenum [] in
    elim (match argument_token (drop pos line)) [
      | none ↦ go_on (linenum + 1) 0
      | some m ↦
          at_argument_token elided line linenum (pos + length m.covered)
            (first_char (group_text 1 m))
    ]

unfoldable pub template_loop : ℕ → List Text → ℕ → ℕ → Bool
unfolding argument_round
template_loop zero elided linenum pos = false
template_loop (suc f) elided linenum pos = elim (ltb linenum (length elided)) [
  | false ↦ false
  | true ↦ elim (argument_round elided linenum pos) [
    | answer b ↦ b
    | go_on l p ↦ template_loop f elided l p
  ]
]

unfoldable pub size_of : List Text → ℕ
size_of [] = 0
size_of (line ∷ lines) = suc (length line) + size_of lines

unfoldable pub in_template_argument_list : List Text → ℕ → ℕ → Bool
unfolding template_loop size_of
in_template_argument_list elided linenum pos =
    template_loop (suc (size_of elided)) elided linenum pos
