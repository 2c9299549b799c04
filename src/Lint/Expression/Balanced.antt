-- ===== src/Lint/Expression/Balanced.antt =====
-- Balanced brackets: what `CloseExpression` finds behind one.
use mathlib.Core.List.{append_assoc}
use native.Mathlib.Nat.{add-zero}
use mathlib.Core.Path.{ap₂}
use epiphany_bsp.Regex.{match, matches}
use epiphany_bsp.Base.{
  ℕ, ◌+◌, ◌≡◌, refl, ap, ◌∙◌, sym, Bool, true, false, not, ◌||◌, List, [], ◌∷◌, ◌++◌, arith, length,
  length-append, get_elem?, get_or, drop, some, ◌==◌,
}
use epiphany_bsp.Base.Text.{Text}
use epiphany_bsp.Lint.Expression.{
  Scan, found, keep, stop, is_opener, is_closer, pairs, end_step, drop_pending, need_stack,
  close_bracket, scan_end, shift_or_less, may_open, find_end_of_expression_in_line,
  close_expression,
}

-- a character that is no bracket and no angle bracket
abbrev pub is_plain : ℕ → Bool
is_plain c = not (is_opener c || is_closer c || (c == b'<' || c == b'>'))

-- Texts with no angle brackets whose brackets are properly nested.
pub data Balanced : Text → Type 0 where
  nil : Balanced []
  plain : (c : ℕ) (w : Text) → is_plain c ≡ true → Balanced w → Balanced (c ∷ w)
  nest :
      (o c : ℕ) (v w : Text)
      → pairs o c ≡ true
      → Balanced v
      → Balanced w
      → {u : Text} → u ≡ o ∷ (v ++ c ∷ w)
      → Balanced u

-- `w`, last character first, in front of what stands before it
abbrev pub onto : Text → Text → Text
onto [] before = before
onto (c ∷ w) before = onto w (c ∷ before)

module _ (before : Text) (i : ℕ) where
  step-opener : (o : ℕ) (s : List ℕ) → is_opener o ≡ true → end_step before i o s ≡ keep (o ∷ s)
  unfolding end_step drop_pending need_stack close_bracket
  step-opener o s h = rw h

  step-plain :
      (c t : ℕ) (s : List ℕ)
      → is_opener t ≡ true
      → is_plain c ≡ true
      → end_step before i c (t ∷ s) ≡ keep (t ∷ s)
  unfolding end_step drop_pending need_stack close_bracket
  step-plain c t s ht h = ground arith

  step-close :
      (o c t : ℕ) (s : List ℕ) → pairs o c ≡ true → end_step before i c (o ∷ t ∷ s) ≡ keep (t ∷ s)
  unfolding end_step drop_pending need_stack close_bracket
  step-close o c t s h = ground arith

  pub step-close_last :
      (o c : ℕ) → pairs o c ≡ true → end_step before i c (o ∷ []) ≡ stop (found (i + 1))
  unfolding end_step drop_pending need_stack close_bracket
  step-close_last o c h = ground arith

pairs-opener : (o c : ℕ) → pairs o c ≡ true → is_opener o ≡ true
pairs-opener o c h = ground arith

keep_on :
    (before rest : Text) (i c : ℕ) (s u : List ℕ)
    → end_step before i c s ≡ keep u
    → scan_end before (c ∷ rest) i s ≡ scan_end (c ∷ before) rest (i + 1) u
unfolding scan_end
keep_on before rest i c s u e = rw (e, scan_end)

stop_at :
    (before rest : Text) (i c : ℕ) (s : List ℕ) {r : Scan}
    → end_step before i c s ≡ stop r
    → scan_end before (c ∷ rest) i s ≡ r
unfolding scan_end
stop_at before rest i c s e = rw (e, scan_end)

onto-append : (v w b : Text) → onto (v ++ w) b ≡ onto w (onto v b)
onto-append [] w b = refl
onto-append (c ∷ v) w b = onto-append v w (c ∷ b)

-- The scan passes over a balanced text, below any bracket, without a change to the stack.
scan_end-Balanced :
    (w : Text) (before rest : Text) (i t : ℕ) (stack : List ℕ)
    → is_opener t ≡ true
    → Balanced w
    → scan_end before (w ++ rest) i (t ∷ stack)
      ≡ scan_end (onto w before) rest (i + length w) (t ∷ stack)
scan_end-Balanced _ before rest i t stack o nil = rw (add-zero)
scan_end-Balanced _ before rest i t stack o (plain c w p b) =
    keep_on before (w ++ rest) i c (t ∷ stack) (t ∷ stack) (step-plain before i c t stack o p)
    ∙ scan_end-Balanced w (c ∷ before) rest (i + 1) t stack o b
    ∙ ap (λ n. scan_end (onto w (c ∷ before)) rest n (t ∷ stack)) (omega arith)
scan_end-Balanced u before rest i t stack ht (nest o c v w pr b b' e) =
    rw (e, append_assoc)
      (keep_on before (v ++ (c ∷ (w ++ rest))) i o (t ∷ stack) (o ∷ t ∷ stack)
          (step-opener before i o (t ∷ stack) (pairs-opener o c pr))
        ∙ scan_end-Balanced v (o ∷ before) (c ∷ (w ++ rest)) (i + 1) o (t ∷ stack)
            (pairs-opener o c pr) b
        ∙ keep_on (onto v (o ∷ before)) (w ++ rest) (i + 1 + length v) c (o ∷ t ∷ stack) (t ∷ stack)
            (step-close (onto v (o ∷ before)) (i + 1 + length v) o c t stack pr)
        ∙ scan_end-Balanced w (c ∷ onto v (o ∷ before)) rest (i + 1 + length v + 1) t stack ht b'
        ∙ ap₂ (λ b n. scan_end b rest n (t ∷ stack)) (sym (onto-append v (c ∷ w) (o ∷ before)))
            (omega (arith, length-append v (c ∷ w))))

scan_end_nested :
    (before rest w : Text) (i o c : ℕ)
    → pairs o c ≡ true
    → Balanced w
    → scan_end before (o ∷ (w ++ c ∷ rest)) i [] ≡ found (i + length w + 2)
scan_end_nested before rest w i o c pr b =
    keep_on before (w ++ c ∷ rest) i o [] (o ∷ []) (step-opener before i o [] (pairs-opener o c pr))
    ∙ scan_end-Balanced w (o ∷ before) (c ∷ rest) (i + 1) o [] (pairs-opener o c pr) b
    ∙ stop_at (onto w (o ∷ before)) rest (i + 1 + length w) c (o ∷ [])
        (step-close_last (onto w (o ∷ before)) (i + 1 + length w) o c pr)
    ∙ ap found (omega arith)

not_shift : (o c : ℕ) (s : Text) → pairs o c ≡ true → matches shift_or_less (o ∷ s) ≡ false
unfolding match shift_or_less
not_shift o c s pr = ground arith

get_elem?-append : (pre rest : Text) (o : ℕ) → get_elem? (pre ++ o ∷ rest) (length pre) ≡ some o
get_elem?-append [] rest o = refl
get_elem?-append (x ∷ pre) rest o = get_elem?-append pre rest o

drop-append : (pre rest : Text) → drop (length pre) (pre ++ rest) ≡ rest
drop-append [] rest = refl
drop-append (x ∷ pre) rest = drop-append pre rest

may_open-pairs : (o c : ℕ) → pairs o c ≡ true → may_open (some o) ≡ true
may_open-pairs o c pr = ground arith

-- From an opening bracket, over a balanced text with no angle brackets, to the closing bracket that
-- pairs with it: `CloseExpression` finds the place just behind that bracket, on the same line.
pub close_expression-Balanced :
    (elided : List Text) (linenum : ℕ) (pre w rest : Text) (o c : ℕ)
    → pairs o c ≡ true
    → Balanced w
    → let line = pre ++ o ∷ (w ++ c ∷ rest) in
      get_or elided linenum [] ≡ line
      → close_expression elided linenum (length pre)
        ≡ record { line = line; linenum = linenum; pos = some (length pre + length w + 2) }
unfolding close_expression find_end_of_expression_in_line
close_expression-Balanced elided linenum pre w rest o c pr b e =
    rw
      (
        e,
        get_elem?-append pre (w ++ c ∷ rest) o,
        may_open-pairs o c pr,
        drop-append,
        not_shift o c (w ++ c ∷ rest) pr,
        scan_end_nested _ rest w (length pre) o c pr b,
      )
      (λ j. record { line = e j; linenum = linenum; pos = some (length pre + length w + 2) })
