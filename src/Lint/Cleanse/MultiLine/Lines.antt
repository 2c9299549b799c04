-- ===== src/Lint/Cleanse/MultiLine/Lines.antt =====
-- Lists of lines: writes, clearing, and where a search stops.
use mathlib.Core.List.{append_assoc}
use epiphany_bsp.Base.{
  ℕ, zero, suc, ◌+◌, ◌≡◌, refl, sym, ap, ◌∙◌, ◌⊎◌, inl, inr, Bool, true, false, List, [], ◌∷◌, ◌++◌,
  length, drop, set, replicate, arith, All, length-append, Bool-cases,
}
use epiphany_bsp.Base.Text.{Text}
use epiphany_bsp.Lint.Cleanse.MultiLine.{first_at, dummy_comment, clear_lines}

-- no line of a list passes a test
abbrev pub No : (Text → Bool) → List Text → Type 0
No p = All (λ l. p l ≡ false)

-- the first line of a list passes a test
abbrev pub First : (Text → Bool) → List Text → Type 0
First p [] = ⊥
First p (l ∷ ls) = p l ≡ true

pub drop-append : (xs ys : List Text) → drop (length xs) (xs ++ ys) ≡ ys
drop-append [] ys = refl
drop-append (x ∷ xs) ys = drop-append xs ys

set-append : (xs ys : List Text) (x v : Text) → set (xs ++ x ∷ ys) (length xs) v ≡ xs ++ v ∷ ys
set-append [] ys x v = refl
set-append (y ∷ xs) ys x v = ap (◌∷◌ y) (set-append xs ys x v)

pub length-replicate : (n : ℕ) (l : Text) → length (replicate n l) ≡ n
length-replicate zero l = refl
length-replicate (suc n) l = ap suc (length-replicate n l)

pub clear_lines-append :
    (i : ℕ) (read block rest : List Text)
    → i ≡ length read
    → clear_lines (length block) i (read ++ (block ++ rest))
      ≡ read ++ (replicate (length block) dummy_comment ++ rest)
unfolding clear_lines
clear_lines-append i read [] rest h = refl
clear_lines-append i read (l ∷ block) rest h =
    ap (λ j. clear_lines (suc (length block)) j (read ++ l ∷ (block ++ rest))) h
    ∙ ap (clear_lines (length block) (length read + 1)) (
        set-append read (block ++ rest) l dummy_comment
        ∙ sym (append_assoc read (dummy_comment ∷ []) (block ++ rest)))
    ∙ clear_lines-append (length read + 1) (read ++ dummy_comment ∷ []) block rest
        (omega (arith, length-append read (dummy_comment ∷ [])))
    ∙ append_assoc read (dummy_comment ∷ []) _

pub First-cases :
    (p : Text → Bool) (ls : List Text)
    → First p ls
    → (l : Text) × (rest : List Text) × (ls ≡ l ∷ rest) × (p l ≡ true)
First-cases p [] h = ground arith
First-cases p (l ∷ ls) h = (l, ls, refl, h)

-- where a search stops: the lines it passes, and the one that it finds or none
pub first_at-parts :
    (p : Text → Bool) (i : ℕ) (ls : List Text)
    → (pre : List Text) × (rest : List Text) × (ls ≡ pre ++ rest)
      × No p pre
      × (first_at p i ls ≡ i + length pre)
      × ((rest ≡ []) ⊎ First p rest)
unfolding first_at
first_at-parts p i [] = ([], [], refl, tt, omega arith, inl refl)
first_at-parts p i (l ∷ ls) = elim (Bool-cases (p l)) [
  | inl t ↦ ([], l ∷ ls, refl, tt, ground arith, inr t)
  | inr n ↦
      let (pre, rest, e, none_of, at, tail) = first_at-parts p (i + 1) ls in
      (l ∷ pre, rest, ap (◌∷◌ l) e, (n, none_of), ground arith, tail)
]
