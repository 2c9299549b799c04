-- ===== src/Lint/Expression/Bounds.antt =====
-- Where the place that `CloseExpression` returns can be.
use mathlib.Core.List.{reverse}
use native.Mathlib.Numerals.{add-one}
use epiphany_bsp.Base.{
  ℕ, suc, zero, ◌+◌, ◌≤◌, ◌<◌, ◌≡◌, refl, inl, inr, true, not, ◌||◌, none, some, List, [], ◌∷◌,
  arith, length, length-drop, take, drop, get_or, get_elem?, Bool-cases,
}
use epiphany_bsp.Base.Text.{Text}
use epiphany_bsp.Regex.{matches}
use epiphany_bsp.Lint.Expression.{
  Scan, found, failed, unclosed, Step, keep, skip, stop, popped, close_bracket, open_angle,
  close_angle, need_stack, end_step, drop_pending, scan_end, find_end_of_expression_in_line, Place,
  close_from, close_expression, may_open, shift_or_less,
}

-- a step that ends the expression ends it just behind its character
abbrev StopsAt : ℕ → Step → Type 0
StopsAt i (stop (found j)) = j ≡ i + 1
StopsAt i _ = Unit

popped-StopsAt : (i : ℕ) (s : List ℕ) → StopsAt i (popped (found (i + 1)) s)
unfolding popped
popped-StopsAt i [] = refl
popped-StopsAt i (t ∷ s) = tt

popped_failed-StopsAt : (i : ℕ) (s : List ℕ) → StopsAt i (popped failed s)
unfolding popped
popped_failed-StopsAt i [] = tt
popped_failed-StopsAt i (t ∷ s) = tt

need_stack-StopsAt : (i : ℕ) (s : List ℕ) → StopsAt i (need_stack s)
unfolding need_stack
need_stack-StopsAt i [] = tt
need_stack-StopsAt i (t ∷ s) = tt

close_bracket-StopsAt : (i c : ℕ) (s : List ℕ) → StopsAt i (close_bracket i c s)
unfolding close_bracket
close_bracket-StopsAt i c [] = tt
close_bracket-StopsAt i c (t ∷ s) = ground (arith, popped-StopsAt i s)

open_angle-StopsAt : (before : Text) (i : ℕ) (s : List ℕ) → StopsAt i (open_angle before s)
unfolding open_angle
open_angle-StopsAt before i [] = ground arith
open_angle-StopsAt before i (t ∷ s) = ground (arith, popped_failed-StopsAt i s)

close_angle-StopsAt : (before : Text) (i : ℕ) (s : List ℕ) → StopsAt i (close_angle before i s)
unfolding close_angle
close_angle-StopsAt before i [] = tt
close_angle-StopsAt before i (t ∷ s) = ground (arith, popped-StopsAt i s)

end_step-StopsAt : (before : Text) (i c : ℕ) (s : List ℕ) → StopsAt i (end_step before i c s)
unfolding end_step
end_step-StopsAt before i c s = ground (
  arith,
  open_angle-StopsAt before i s,
  close_bracket-StopsAt i c (drop_pending b'<' s),
  close_angle-StopsAt before i s,
  need_stack-StopsAt i (drop_pending b'<' s),
)

-- A scan that finds an end has read at least one character, and stays on the line.
abbrev EndsIn : ℕ → ℕ → Scan → Type 0
EndsIn i j (found p) = (i < p) × (p ≤ j)
EndsIn i j _ = Unit

scan_end-EndsIn :
    (before rest : Text) (i : ℕ) (s : List ℕ)
    → EndsIn i (i + length rest) (scan_end before rest i s)
unfolding scan_end
scan_end-EndsIn before [] i s = tt
scan_end-EndsIn before (c ∷ rest) i s =
    by_step (end_step before i c s) (end_step-StopsAt before i c s)
      (scan_end-EndsIn (c ∷ before) rest (i + 1))
  where
    widen : (r : Scan) → EndsIn (i + 1) (i + 1 + length rest) r → EndsIn i (i + suc (length rest)) r
    widen (found p) h = omega arith
    widen failed h = tt
    widen (unclosed t) h = tt

    by_step :
        (st : Step)
        → StopsAt i st
        → ((u : List ℕ)
            → EndsIn (i + 1) (i + 1 + length rest) (scan_end (c ∷ before) rest (i + 1) u))
        → EndsIn i (i + suc (length rest)) (elim st [
          | stop r ↦ r
          | keep u ↦ scan_end (c ∷ before) rest (i + 1) u
          | skip u ↦ scan_end (c ∷ before) rest (i + 1) u
        ])
    by_step (stop (found j)) h rec = omega arith
    by_step (stop failed) h rec = tt
    by_step (stop (unclosed u)) h rec = tt
    by_step (keep u) h rec = widen _ (rec u)
    by_step (skip u) h rec = widen _ (rec u)

drop-length : (n : ℕ) (s : Text) → n + length (drop n s) ≤ n + length s
drop-length n s = omega (arith, length-drop n s)

in_line-EndsIn :
    (line : Text) (p : ℕ) (s : List ℕ)
    → p ≤ length line
    → EndsIn p (length line) (find_end_of_expression_in_line line p s)
unfolding find_end_of_expression_in_line
in_line-EndsIn line p s h =
    let e : p + length (drop p line) ≡ length line = omega (arith, length-drop p line) in
    rw e at (scan_end-EndsIn (reverse (take p line)) (drop p line) p s)

-- What a place at position `p` says of the file, if the search began at line `from`.
abbrev pub IsPlaceIn : List Text → ℕ → ℕ → Place → Type 0
IsPlaceIn elided from p r =
    (from ≤ r.linenum)
    × (r.linenum < length elided)
    × (get_or elided r.linenum [] ≡ r.line)
    × (0 < p)
    × (p ≤ length r.line)

get_or-drop :
    (elided : List Text) (n : ℕ) {l : Text} {rest : List Text}
    → drop n elided ≡ l ∷ rest
    → (get_or elided n [] ≡ l) × (n < length elided) × (drop (suc n) elided ≡ rest)
get_or-drop [] zero e = cc
get_or-drop [] (suc n) e = cc
get_or-drop (x ∷ xs) zero e = ground arith
get_or-drop (x ∷ xs) (suc n) e = let h = get_or-drop xs n e in (h.0, omega (arith, h.1), h.2)

widen_place :
    (elided : List Text) (n p : ℕ) (r : Place)
    → IsPlaceIn elided (n + 1) p r
    → IsPlaceIn elided n p r
widen_place elided n p r h = (omega arith, h.1, h.2, h.3, h.4)

may_open-le : (line : Text) (pos : ℕ) → may_open (get_elem? line pos) ≡ true → pos ≤ length line
may_open-le [] pos h = cc
may_open-le (x ∷ line) zero h = omega arith
may_open-le (x ∷ line) (suc pos) h = omega (arith, may_open-le line pos h)

module _ (elided : List Text) (p : ℕ) where
  close_from-IsPlaceIn :
      (rest : List Text) (line : Text) (linenum : ℕ) (s : List ℕ)
      → drop (linenum + 1) elided ≡ rest
      → (close_from rest (length elided) line linenum s).pos ≡ some p
      → IsPlaceIn elided linenum p (close_from rest (length elided) line linenum s)
  unfolding close_from
  close_from-IsPlaceIn rest line linenum [] e h = cc
  close_from-IsPlaceIn [] line linenum (t ∷ s) e h = cc
  close_from-IsPlaceIn (next ∷ rest) line linenum (t ∷ s) e h =
      by_scan (find_end_of_expression_in_line next 0 (t ∷ s))
        (in_line-EndsIn next 0 (t ∷ s) (omega arith)) (close_from-IsPlaceIn rest next (linenum + 1))
        h
    where
      at :
          (get_or elided (linenum + 1) [] ≡ next)
          × (linenum + 1 < length elided)
          × (drop (suc (linenum + 1)) elided ≡ rest)
      at = get_or-drop elided (linenum + 1) e

      after : Scan → Place
      after (found q) = record { line = next; linenum = linenum + 1; pos = some q }
      after failed = record { line = next; linenum = length elided; pos = none }
      after (unclosed u) = close_from rest (length elided) next (linenum + 1) u

      by_scan :
          (r : Scan)
          → EndsIn 0 (length next) r
          → ((u : List ℕ)
              → drop (linenum + 1 + 1) elided ≡ rest
              → (close_from rest (length elided) next (linenum + 1) u).pos ≡ some p
              → IsPlaceIn elided
                  (linenum + 1)
                  p
                  (close_from rest (length elided) next (linenum + 1) u))
          → (after r).pos ≡ some p
          → IsPlaceIn elided linenum p (after r)
      by_scan (found q) b rec f = ground (arith, at)
      by_scan failed b rec f = cc
      by_scan (unclosed u) b rec f =
          widen_place elided linenum p (close_from rest (length elided) next (linenum + 1) u)
            (rec u (rw (add-one (linenum + 1)) at.2) f)

  -- A place that `CloseExpression` finds is on the line that it returns with it, which is a line of
  -- the file at or below the starting one; the position is behind at least one character.
  pub close_expression-IsPlaceIn :
      (linenum pos : ℕ)
      → linenum < length elided
      → (close_expression elided linenum pos).pos ≡ some p
      → IsPlaceIn elided linenum p (close_expression elided linenum pos)
  unfolding close_expression
  close_expression-IsPlaceIn linenum pos inside h =
      elim (Bool-cases
        (not (may_open (get_elem? line pos)) || matches shift_or_less (drop pos line))) [
          | inl refused ↦ ground arith
          | inr opens ↦ rw opens (
              by_scan (find_end_of_expression_in_line line pos [])
                (in_line-EndsIn line pos [] (may_open-le line pos (ground arith))) (rw opens at h))
        ]
    where
      line : Text
      line = get_or elided linenum []

      after : Scan → Place
      after (found q) = record { line = line; linenum = linenum; pos = some q }
      after failed = record { line = line; linenum = length elided; pos = none }
      after (unclosed u) = close_from (drop (linenum + 1) elided) (length elided) line linenum u

      by_scan :
          (r : Scan)
          → EndsIn pos (length line) r
          → (after r).pos ≡ some p
          → IsPlaceIn elided linenum p (after r)
      by_scan (found q) b f = ground arith
      by_scan failed b f = cc
      by_scan (unclosed u) b f =
          close_from-IsPlaceIn (drop (linenum + 1) elided) line linenum u refl f
