-- ===== src/Lint/Language/Printf/Inside.antt =====
-- What `_GetTextInside` finds behind a bracket.
use mathlib.Core.List.{append_assoc}
use epiphany_bsp.Base.{
  ℕ, suc, ◌+◌, ◌-◌, ◌≡◌, refl, ap, sym, ◌∙◌, true, false, ◌==◌, some, List, [], ◌∷◌, ◌++◌, arith,
  length, drop, length-append,
}
use epiphany_bsp.Base.Text.{Text}
use epiphany_bsp.Base.{get_or-append, take-append}
use epiphany_bsp.Lint.Expression.{is_closer, is_opener, pairs}
use epiphany_bsp.Lint.Expression.Balanced.{Balanced, is_plain, nil, plain, nest}
use epiphany_bsp.Lint.Language.Printf.{get_text_inside, scan_inside, closer_of}
use epiphany_bsp.Regex.{Found}

opens :
    (o c : ℕ) → pairs o c ≡ true → (is_opener o ≡ true) × (is_closer o ≡ false) × (closer_of o ≡ c)
opens o c hp = (ground (arith, hp), ground (arith, hp), ground (arith, hp))

module _ (s : Text) (n : ℕ) where
  step-plain :
      (c t : ℕ) (stack : List ℕ)
      → is_closer t ≡ true
      → is_plain c ≡ true
      → scan_inside (t ∷ stack) s ≡ some n
      → scan_inside (t ∷ stack) (c ∷ s) ≡ some (suc n)
  unfolding scan_inside
  step-plain c t stack ht hc e = rw e (ground (arith, ht, hc, e))

  step-open :
      (o c t : ℕ) (stack : List ℕ)
      → is_closer t ≡ true
      → pairs o c ≡ true
      → scan_inside (c ∷ t ∷ stack) s ≡ some n
      → scan_inside (t ∷ stack) (o ∷ s) ≡ some (suc n)
  unfolding scan_inside
  step-open o c t stack ht hp e =
      let opener = opens o c hp in
      let other : (o == t) ≡ false = ground (arith, ht, opener.0) in
      rw (other, opener.1, opener.0, opener.2, e) refl

  step-close :
      (c t : ℕ) (stack : List ℕ)
      → scan_inside (t ∷ stack) s ≡ some n
      → scan_inside (c ∷ t ∷ stack) (c ∷ s) ≡ some (suc n)
  unfolding scan_inside
  step-close c t stack e = rw e (ground arith)

-- The walk passes over a balanced text without a change to the stack.
scan_inside-Balanced :
    (w rest : Text) (n t : ℕ) (stack : List ℕ)
    → is_closer t ≡ true
    → Balanced w
    → scan_inside (t ∷ stack) rest ≡ some n
    → scan_inside (t ∷ stack) (w ++ rest) ≡ some (length w + n)
scan_inside-Balanced _ rest n t stack ht nil e = e ∙ ap some (omega arith)
scan_inside-Balanced _ rest n t stack ht (plain c w p b) e =
    step-plain (w ++ rest) _ c t stack ht p (scan_inside-Balanced w rest n t stack ht b e)
    ∙ ap some (omega arith)
scan_inside-Balanced u rest n t stack ht (nest o c v w pr b b' same) e =
    let behind =
      step-close (w ++ rest) _ c t stack (scan_inside-Balanced w rest n t stack ht b' e) in
    let inner =
      scan_inside-Balanced v (c ∷ (w ++ rest)) _ c (t ∷ stack) (ground (arith, pr)) b behind in
    rw (same, append_assoc)
      (step-open (v ++ c ∷ (w ++ rest)) _ o c t stack ht pr inner
        ∙ ap some (omega (arith, length-append v (c ∷ w))))

drop-behind : (p q : Text) (o : ℕ) → drop (suc (length p)) (p ++ o ∷ q) ≡ q
drop-behind [] q o = refl
drop-behind (x ∷ p) q o = drop-behind p q o

closed : (c : ℕ) (rest : Text) → scan_inside (c ∷ []) (c ∷ rest) ≡ some 0
unfolding scan_inside
closed c rest = ground arith

-- Where the pattern's match ends with an opening bracket, and behind it stand a text whose brackets are
-- properly nested, without angle brackets, and the bracket that closes the first, the text between the
-- two brackets is found, whatever follows.
pub get_text_inside-Balanced :
    (m : Found) (k w rest : Text) (o c : ℕ)
    → m.covered ≡ k ++ o ∷ []
    → pairs o c ≡ true
    → Balanced w
    → get_text_inside (m.head ++ (m.covered ++ (w ++ c ∷ rest))) (some m) ≡ some w
unfolding get_text_inside
get_text_inside-Balanced m k w rest o c ends pr b =
    let start : length m.head + length m.covered ≡ suc (length (m.head ++ k)) =
      rw ends (omega (arith, length-append m.head k, length-append k (o ∷ []))) in
    let whole : m.head ++ (m.covered ++ (w ++ c ∷ rest)) ≡ (m.head ++ k) ++ (o ∷ (w ++ c ∷ rest)) =
      rw ends (
        ap (λ t. m.head ++ t) (append_assoc k (o ∷ []) (w ++ c ∷ rest))
        ∙ sym (append_assoc m.head k (o ∷ (w ++ c ∷ rest)))) in
    let last = get_or-append (m.head ++ k) o (w ++ c ∷ rest) 0 in
    let before : suc (length (m.head ++ k)) - 1 ≡ length (m.head ++ k) = omega arith in
    let inside : scan_inside (c ∷ []) (w ++ c ∷ rest) ≡ some (length w) =
      scan_inside-Balanced w (c ∷ rest) 0 c [] (ground (arith, pr)) b (closed c rest)
      ∙ ap some (omega arith) in
    rw
      (
        whole,
        get_text_inside,
        start,
        before,
        last,
        drop-behind (m.head ++ k) (w ++ c ∷ rest) o,
        (opens o c pr).2,
        inside,
      )
      (ap some
        (rw (start, whole, drop-behind (m.head ++ k) (w ++ c ∷ rest) o) (take-append w (c ∷ rest))))
