-- ===== src/Lint/FileInfo/Climb.antt =====
-- The climb from a file's directory to the top of its checkout.
use mathlib.Core.List.{reverse, reverse-cons}
use epiphany_bsp.Base.{
  ℕ, ◌≤◌, ◌≡◌, refl, ap, ◌∙◌, ◌⊎◌, inl, inr, [], ◌∷◌, length, arith, length-append,
}
use epiphany_bsp.Base.Text.{Text}
use epiphany_bsp.Lint.FileInfo.{strip_char, head_of}

length-strip_char : (sep : ℕ) (s : Text) → length (strip_char sep s) ≤ length s
length-strip_char sep [] = omega arith
length-strip_char sep (c ∷ s) = ground (arith, length-strip_char sep s)

pub length-reverse : (s : Text) → length (reverse s) ≡ length s
length-reverse [] = refl
length-reverse (c ∷ s) =
    ap length (reverse-cons c s)
    ∙ omega (arith, length-append (reverse s) (c ∷ []), length-reverse s)

-- what `head_of` makes of the text without its last slashes
head_or : (stripped front : Text) → Text
head_or stripped front = elim stripped [ [] ↦ reverse front | c ∷ s ↦ reverse (c ∷ s) ]

head_or-cases :
    (stripped front : Text)
    → (head_or stripped front ≡ reverse front) ⊎ (length (head_or stripped front) ≤ length stripped)
unfolding head_or
head_or-cases [] front = inl refl
head_or-cases (c ∷ s) front = inr (omega (arith, length-reverse (c ∷ s)))

head_of-cases :
    (front : Text)
    → (head_of front ≡ reverse front) ⊎ (length (head_of front) ≤ length (strip_char b'/' front))
unfolding head_or
head_of-cases front = head_or-cases (strip_char b'/' front) front

pub length-head_of : (front : Text) → length (head_of front) ≤ length front
length-head_of front = elim (head_of-cases front) [
  | inl e ↦ omega (arith, ap length e, length-reverse front)
  | inr l ↦ omega (arith, l, length-strip_char b'/' front)
]
