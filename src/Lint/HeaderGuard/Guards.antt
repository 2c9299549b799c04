-- ===== src/Lint/HeaderGuard/Guards.antt =====
-- Which lines of a header the guard's check looks at.
use epiphany_bsp.Base.{
  ℕ, suc, ◌≡◌, refl, ◌∙◌, inl, inr, Bool, true, false, Option, none, some, List, [], ◌∷◌, arith,
  All, if◌then◌else◌, Bool-cases,
}
use epiphany_bsp.Base.Text.{Text, text, words, equal, starts_with, is_unicode_space, extend}
use epiphany_bsp.Lint.HeaderGuard.{
  GuardLines, no_guard, see_ifndef, see_define, see_endif, guard_lines_from, guard_lines, is_empty,
}

-- the second word of a line whose first word is the directive
abbrev pub second_word : Text → List Text → Option Text
second_word directive (first ∷ name ∷ more) = if equal first directive then some name else none
second_word directive _ = none

-- the first line with a directive and a name, and the last line that starts with `#endif`
abbrev pub first_named : Text → ℕ → List Text → Option (ℕ × Text)
first_named directive linenum [] = none
first_named directive linenum (line ∷ lines) = elim (second_word directive (words line)) [
  | some name ↦ some (linenum, name)
  | none ↦ first_named directive (suc linenum) lines
]

abbrev pub last_endif : ℕ → List Text → Option (ℕ × Text)
last_endif linenum [] = none
last_endif linenum (line ∷ lines) = elim (last_endif (suc linenum) lines) [
  | some found ↦ some found
  | none ↦ if starts_with line (text "#endif") then some (linenum, line) else none
]

abbrev pub text_or : Option (ℕ × Text) → Text → Text
text_or none t = t
text_or (some (i, t')) t = t'

abbrev pub line_or : Option (ℕ × Text) → ℕ → ℕ
line_or none i = i
line_or (some (j, t)) i = j

-- no word is empty
extend-is_empty :
    (c : ℕ) (ws : List Text)
    → All (λ w. is_empty w ≡ false) ws
    → All (λ w. is_empty w ≡ false) (extend c ws)
extend-is_empty c [] h = (refl, tt)
extend-is_empty c (w ∷ ws) h = (refl, h.1)

words-is_empty : (s : Text) → All (λ w. is_empty w ≡ false) (words s)
unfolding words
words-is_empty [] = tt
words-is_empty (c ∷ s) = word_or (is_unicode_space c) (words s) (words-is_empty s) s
  where
    word_or :
        (b : Bool) (ws : List Text)
        → All (λ w. is_empty w ≡ false) ws
        → (t : Text)
        → All
            (λ w. is_empty w ≡ false)
            (if b then ws else elim t [
              | [] ↦ (c ∷ []) ∷ []
              | d ∷ u ↦ if is_unicode_space d then (c ∷ []) ∷ ws else extend c ws
            ])
    word_or true ws h t = h
    word_or false ws h [] = (refl, tt)
    word_or false ws h (d ∷ u) = elim (Bool-cases (is_unicode_space d)) [
      | inl e ↦ rw e (refl, h)
      | inr e ↦ rw e (extend-is_empty c ws h)
    ]

-- what the walk over the lines from `linenum` on adds to what is known
abbrev after : ℕ → List Text → GuardLines → GuardLines
after linenum lines s =
    let ifndef = first_named (text "#ifndef") linenum lines in
    let define = first_named (text "#define") linenum lines in
    let endif = last_endif linenum lines in
    record {
      ifndef = if is_empty s.ifndef then text_or ifndef s.ifndef else s.ifndef;
      ifndef_linenum =
          if is_empty s.ifndef then line_or ifndef s.ifndef_linenum else s.ifndef_linenum;
      define = if is_empty s.define then text_or define s.define else s.define;
      endif = text_or endif s.endif;
      endif_linenum = line_or endif s.endif_linenum;
    }

after-step :
    (linenum : ℕ) (line : Text) (ws : List Text) (lines : List Text) (s : GuardLines)
    → words line ≡ ws
    → All (λ w. is_empty w ≡ false) ws
    → after (suc linenum) lines (see_endif linenum line (see_define ws (see_ifndef linenum ws s)))
      ≡ after linenum (line ∷ lines) s
unfolding see_ifndef see_define see_endif
after-step linenum line [] lines s e h = ground arith
after-step linenum line (w ∷ []) lines s e h = ground arith
after-step linenum line (w ∷ v ∷ ws) lines s e h = ground arith

guard_lines_from-after :
    (linenum : ℕ) (lines : List Text) (s : GuardLines)
    → guard_lines_from linenum lines s ≡ after linenum lines s
unfolding guard_lines_from
guard_lines_from-after linenum [] s = ground arith
guard_lines_from-after linenum (line ∷ lines) s =
    guard_lines_from-after (suc linenum) lines _
    ∙ after-step linenum line (words line) lines s refl (words-is_empty line)

-- The walk over the lines of a header finds the name on the first line whose first word is #ifndef,
-- with the line's number, the name on the first line whose first word is #define, and the last line
-- that starts with #endif, with its number; a line with one word has no name.
pub guard_lines-first_named :
    (lines : List Text)
    → guard_lines lines ≡ record {
      ifndef = text_or (first_named (text "#ifndef") 0 lines) [];
      ifndef_linenum = line_or (first_named (text "#ifndef") 0 lines) 0;
      define = text_or (first_named (text "#define") 0 lines) [];
      endif = text_or (last_endif 0 lines) [];
      endif_linenum = line_or (last_endif 0 lines) 0;
    }
unfolding guard_lines no_guard
guard_lines-first_named lines = guard_lines_from-after 0 lines no_guard
