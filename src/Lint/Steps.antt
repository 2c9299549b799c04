-- ===== src/Lint/Steps.antt =====
-- How the checks of a line are put together: what a check does to the globals, one after another, under
-- a condition, or for what a pattern found.
use epiphany_bsp.Base.{
  Bool, List, Option, [], false, get_or, length, none, some, suc, true, zero, ℕ, ◌-◌, ◌∷◌,
}
use epiphany_bsp.Base.Text.{Text}
use epiphany_bsp.Lint.Report.{Globals}
use epiphany_bsp.Regex.{Found, Regex, search_in}

abbrev pub Action : Type 0
Action = Globals → Globals

unfoldable pub skip : Action
skip g = g

infixr 5 ◌⨾◌
unfoldable pub ◌⨾◌ : Action → Action → Action
(f ⨾ h) g = h (f g)

unfoldable pub when : Bool → Action → Action
when true f g = f g
when false f g = g

unfoldable pub branch : Bool → Action → Action → Action
branch true f h g = f g
branch false f h g = h g

unfoldable pub for_some {ℓ} : {A : Type ℓ} → Option A → (A → Action) → Action
for_some none f g = g
for_some (some x) f g = f x g

-- what to do for nothing comes first
unfoldable pub on_option {ℓ} : {A : Type ℓ} → Option A → Action → (A → Action) → Action
on_option none f h g = f g
on_option (some x) f h g = h x g

unfoldable pub each {ℓ} : {A : Type ℓ} → (A → Action) → List A → Action
each f [] g = g
each f (x ∷ xs) g = each f xs (f x g)

-- a line of the file, and the one above it; the index -1 is that of the last line
abbrev pub line_at : List Text → ℕ → Text
line_at lines linenum = get_or lines linenum []

unfoldable pub line_above : List Text → ℕ → Text
line_above lines zero = line_at lines (length lines - 1)
line_above lines (suc linenum) = line_at lines linenum

-- an exception that nothing catches: as for a failed assertion, nothing is reported from then on
unfoldable pub crash : Action
crash g = record g { aborted = true }

-- `finditer`, for a pattern that never matches the empty text: each round passes a character, and the
-- length of the text is enough fuel
unfoldable pub find_all : ℕ → Regex → Text → List Found
find_all zero r s = []
find_all (suc fuel) r s = elim (search_in r s) [ none ↦ [] | some m ↦ m ∷ find_all fuel r m.tail ]

-- `re.split`, for such a pattern
unfoldable pub split_all : ℕ → Regex → Text → List Text
split_all zero r s = s ∷ []
split_all (suc fuel) r s = elim (search_in r s) [
  | none ↦ s ∷ []
  | some m ↦ m.head ∷ split_all fuel r m.tail
]
