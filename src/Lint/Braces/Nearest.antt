-- ===== src/Lint/Braces/Nearest.antt =====
-- What `GetPreviousNonBlankLine` returns.
use epiphany_bsp.Base.{
  ℕ, zero, suc, ◌<◌, ◌≡◌, refl, true, false, Option, none, some, List, arith, inl, inr, Bool-cases,
  Bool, ltb,
}
use epiphany_bsp.Base.Text.{Text}
use epiphany_bsp.Lint.Steps.{line_at}
use epiphany_bsp.Lint.NamespaceIndent.{is_blank_line}
use epiphany_bsp.Lint.Braces.PreviousLine.{get_previous_non_blank_line}

-- The line stands at its number above the given one, it is not blank, and all lines between are. Where
-- there is no line, all lines above are blank.
unfoldable pub IsNearest : List Text → ℕ → Option (Text × ℕ) → Type 0
IsNearest elided linenum none = (j : ℕ) → j < linenum → is_blank_line (line_at elided j) ≡ true
IsNearest elided linenum (some (line, i)) =
    (i < linenum)
    × (line_at elided i ≡ line)
    × (is_blank_line line ≡ false)
    × ((j : ℕ) → i < j → j < linenum → is_blank_line (line_at elided j) ≡ true)

extend : (p : ℕ → Bool) (i j : ℕ) → p i ≡ true → (j < i → p j ≡ true) → j < suc i → p j ≡ true
extend p i j last before lt = elim (Bool-cases (ltb j i)) [
  | inl e ↦ before (ground (arith, e))
  | inr e ↦ let same : j ≡ i = ground (arith, e, lt) in rw same last
]

further-IsNearest :
    (elided : List Text) (i : ℕ) (r : Option (Text × ℕ))
    → is_blank_line (line_at elided i) ≡ true
    → IsNearest elided i r
    → IsNearest elided (suc i) r
unfolding IsNearest
further-IsNearest elided i none blank h =
    λ j. extend (λ n. is_blank_line (line_at elided n)) i j blank (h j)
further-IsNearest elided i (some (line, n)) blank h = (
  omega (arith, h.0),
  h.1,
  h.2,
  λ j above. extend (λ n. is_blank_line (line_at elided n)) i j blank (h.3 j above),
)

-- The function returns the nearest line above that is not blank, with its number, or nothing where
-- every line above is blank.
pub get_previous_non_blank_line-IsNearest :
    (elided : List Text) (linenum : ℕ)
    → IsNearest elided linenum (get_previous_non_blank_line elided linenum)
unfolding get_previous_non_blank_line IsNearest
get_previous_non_blank_line-IsNearest elided zero = λ j lt. absurd (omega (arith, lt))
get_previous_non_blank_line-IsNearest elided (suc i) =
    elim (Bool-cases (is_blank_line (line_at elided i))) [
      | inl e ↦
          rw e (further-IsNearest elided i _ e (get_previous_non_blank_line-IsNearest elided i))
      | inr e ↦ rw e (omega arith, refl, e, λ j above below. absurd (omega (arith, above, below)))
    ]
