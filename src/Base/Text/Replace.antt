-- ===== src/Base/Text/Replace.antt =====
-- Laws of `str.replace` and `str.startswith` that the canonical paths need.
use epiphany_bsp.Base.{ℕ, ◌≡◌, refl, ◌≢◌, [], ◌∷◌, map, All, arith, ◌==◌, if◌then◌else◌}
use epiphany_bsp.Base.Text.{Text, starts_with, replace, replace_from}

-- `s.replace(a, b)` for two characters works on each character by itself.
abbrev pub swap : ℕ → ℕ → ℕ → ℕ
swap a b c = if c == a then b else c

replace_from-swap : (a b : ℕ) (s : Text) → replace_from 0 s (a ∷ []) (b ∷ []) ≡ map (swap a b) s
unfolding replace_from starts_with
replace_from-swap a b [] = refl
replace_from-swap a b (c ∷ s) = ground (arith, replace_from-swap a b s)

pub replace-swap : (a b : ℕ) (s : Text) → replace s (a ∷ []) (b ∷ []) ≡ map (swap a b) s
unfolding replace
replace-swap a b s = replace_from-swap a b s

-- A text without the first character of `p` is not changed by `s.replace(p, r)`.
abbrev pub Lacks : ℕ → Text → Type 0
Lacks a s = All (λ c. c ≢ a) s

replace_from-Lacks : (a : ℕ) (p r s : Text) → Lacks a s → replace_from 0 s (a ∷ p) r ≡ s
unfolding replace_from starts_with
replace_from-Lacks a p r [] h = refl
replace_from-Lacks a p r (c ∷ s) h = ground (arith, replace_from-Lacks a p r s h.1)

pub replace-Lacks : (a : ℕ) (p r s : Text) → Lacks a s → replace s (a ∷ p) r ≡ s
unfolding replace
replace-Lacks a p r s h = replace_from-Lacks a p r s h
