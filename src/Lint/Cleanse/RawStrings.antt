-- ===== src/Lint/Cleanse/RawStrings.antt =====
-- `CleanseRawStrings` of scripts/cpplint.py. The loop over one line runs on fuel, one more than the
-- line's length.
use epiphany_bsp.Base.{ℕ, zero, suc, ◌+◌, Option, none, some, List, [], ◌∷◌, ◌++◌, length, drop}
use epiphany_bsp.Base.Text.{Text, text, find}
use epiphany_bsp.Regex.{
  Regex, ◌⊙◌, line_start, line_end, star, any_char, boundary, any_of, one, group, spaces, non_space,
  char, one_of_codes, match, group_text,
}
use epiphany_bsp.Base.{not, ◌||◌}
use epiphany_bsp.Base.Text.{is_space}

-- r'^(.*)\b(?:R|u8R|uR|UR|LR)"([^\s\\()]*)\((.*)$'
unfoldable pub raw_string : Regex
raw_string =
    line_start
    ⊙ group 1 (star any_char)
    ⊙ boundary
    ⊙ any_of ("R" ∷ "u8R" ∷ "uR" ∷ "UR" ∷ "LR" ∷ [])
    ⊙ one b'"'
    ⊙ group 2 (star (char (λ c. not (is_space c || one_of_codes (b'\\' ∷ b'(' ∷ b')' ∷ []) c))))
    ⊙ one b'('
    ⊙ group 3 (star any_char)
    ⊙ line_end

-- r'^(\s*)\S'
unfoldable pub leading_space : Regex
leading_space = line_start ⊙ group 1 spaces ⊙ non_space

unfoldable pub quotes : Text
quotes = text "\"\""

-- The `while delimiter is None` loop over one line: the line, and the delimiter of a raw string that
-- goes on behind it.
unfoldable pub open_raw : ℕ → Text → Text × Option Text
open_raw zero line = (line, none)
open_raw (suc f) line = elim (match raw_string line) [
  | none ↦ (line, none)
  | some m ↦
      let delimiter = text ")" ++ (group_text 2 m ++ text "\"") in
      elim (find (group_text 3 m) delimiter) [
        | some end ↦
            open_raw f
              (group_text 1 m ++ (quotes ++ drop (end + length delimiter) (group_text 3 m)))
        | none ↦ (group_text 1 m ++ quotes, some delimiter)
      ]
]

unfoldable pub raw_fuel : Text → ℕ
raw_fuel line = suc (length line)

-- `leading_space.group(1)`; a line that holds a delimiter always matches
unfoldable pub leading : Text → Text
leading line = elim (match leading_space line) [ none ↦ [] | some m ↦ group_text 1 m ]

-- one round of the loop over the lines
unfoldable pub cleanse_raw_line : Option Text → Text → Text × Option Text
unfolding raw_fuel
cleanse_raw_line none line = open_raw (raw_fuel line) line
cleanse_raw_line (some delimiter) line = elim (find line delimiter) [
  | some end ↦
      let rest = leading line ++ (quotes ++ drop (end + length delimiter) line) in
      open_raw (raw_fuel rest) rest
  | none ↦ (quotes, some delimiter)
]

unfoldable pub cleanse_raw_from : Option Text → List Text → List Text
cleanse_raw_from delimiter [] = []
cleanse_raw_from delimiter (line ∷ lines) =
    let (line', delimiter') = cleanse_raw_line delimiter line in
    line' ∷ cleanse_raw_from delimiter' lines

unfoldable pub cleanse_raw_strings : List Text → List Text
unfolding cleanse_raw_from
cleanse_raw_strings = cleanse_raw_from none
