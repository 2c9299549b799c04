-- ===== src/Lint/State/Laws.antt =====
-- Filters and error counts of `_CppLintState`.
use epiphany_bsp.Base.{
  ℕ, ◌+◌, ◌≡◌, ◌≢◌, ◌↔◌, refl, inl, inr, true, ◌++◌, ◌==◌, ◌⊎◌, sym, ap, ◌∙◌, none, List, [], ◌∷◌,
  All, arith, length, if◌then◌else◌, Bool-cases, Option-cases,
}
use mathlib.Core.List.{append-nil, append_assoc}
use epiphany_bsp.Base.Text.{Text, equal, equal_iff, split, strip, starts_with}
use epiphany_bsp.Lint.State.{
  CppLintState, Counting, total, toplevel, detailed, is_signed, append_filters, first_unsigned,
  add_filters, reset_error_counts, bump, top_level, count_category, increment_error_count,
}

abbrev pub IsSigned : Text → Type 0
IsSigned f = is_signed f ≡ true

-- begins with `+` or `-`
pub HasSign : Text → Type 0
HasSign f = (rest : Text) × ((f ≡ b'+' ∷ rest) ⊎ (f ≡ b'-' ∷ rest))

HasSign-is_signed : (f : Text) → is_signed f ≡ true → HasSign f
unfolding is_signed starts_with HasSign
HasSign-is_signed [] h = ground arith
HasSign-is_signed (c ∷ f) h = (
  f,
  elim (Bool-cases (c == b'+')) [
    | inl plus ↦ inl (ap (λ d. d ∷ f) (ground (arith, plus)))
    | inr other ↦ inr (ap (λ d. d ∷ f) (ground (arith, other, h)))
  ],
)

is_signed-HasSign : (f : Text) → HasSign f → is_signed f ≡ true
unfolding is_signed starts_with HasSign
is_signed-HasSign f (rest, inl e) = rw e refl
is_signed-HasSign f (rest, inr e) = rw e refl

first_unsigned-All : (fs : List Text) → first_unsigned fs ≡ none → All HasSign fs
unfolding first_unsigned
first_unsigned-All [] h = tt
first_unsigned-All (f ∷ fs) h = elim (Bool-cases (is_signed f)) [
  | inl s ↦ (HasSign-is_signed f s, first_unsigned-All fs (ground arith))
  | inr u ↦ ground arith
]

All-first_unsigned : (fs : List Text) → All HasSign fs → first_unsigned fs ≡ none
unfolding first_unsigned
All-first_unsigned [] h = refl
All-first_unsigned (f ∷ fs) h = rw (is_signed-HasSign f h.0) (All-first_unsigned fs h.1)

-- the items of a list that are not blank, without the blanks around them
abbrev pub items : List Text → List Text
items [] = []
items (s ∷ ss) = let rest = items ss in if equal (strip s) [] then rest else strip s ∷ rest

appended :
    (t : Text) (rest fs : List Text)
    → ((gs : List Text) → append_filters rest gs ≡ gs ++ items rest)
    → elim t as (λ x. List Text) [
      | [] ↦ append_filters rest fs
      | c ∷ clean ↦ append_filters rest (fs ++ (c ∷ clean) ∷ [])
    ]
      ≡ fs ++ (if equal t [] then items rest else t ∷ items rest)
unfolding equal
appended [] rest fs h = h fs
appended (c ∷ t) rest fs h = h (fs ++ (c ∷ t) ∷ []) ∙ append_assoc fs ((c ∷ t) ∷ []) (items rest)

append_filters-items : (ss fs : List Text) → append_filters ss fs ≡ fs ++ items ss
unfolding append_filters
append_filters-items [] fs = sym (append-nil fs)
append_filters-items (s ∷ ss) fs = appended (strip s) ss fs (append_filters-items ss)

-- `AddFilters` puts the items of the list that are not blank, without the blanks around them, behind the
-- filters in force, and raises no `ValueError` exactly when each of the filters then in force, the ones
-- that were there before included, begins with `+` or `-`.
pub add_filters-HasSign :
    (filters : Text) (s : CppLintState)
    → let fs = s.filters ++ items (split filters b',') in
      ((add_filters filters s).0.filters ≡ fs)
      × (((add_filters filters s).1 ≡ none) ↔ All HasSign fs)
unfolding add_filters
add_filters-HasSign filters s =
    let same = append_filters-items (split filters b',') s.filters in
    let fs = s.filters ++ items (split filters b',') in
    (
      same,
      rw (add_filters, same)
          (elim (Option-cases (first_unsigned fs)) [
            | inl e ↦ (λ h. first_unsigned-All fs e, λ h. ground (arith, e))
            | inr (f, e) ↦ (λ h. ground arith, λ h. ground (arith, All-first_unsigned fs h))
          ]),
    )

-- A style that counts by category.
abbrev pub CountsCategories : Counting → Type 0
CountsCategories c = c ≢ total

abbrev pub sum_counts : List (Text × ℕ) → ℕ
sum_counts [] = 0
sum_counts ((c, n) ∷ rest) = n + sum_counts rest

abbrev pub count_of : Text → List (Text × ℕ) → ℕ
count_of category [] = 0
count_of category ((c, n) ∷ rest) = if equal c category then n else count_of category rest

sum_counts-bump : (c : Text) (es : List (Text × ℕ)) → sum_counts (bump c es) ≡ sum_counts es + 1
unfolding bump
sum_counts-bump c [] = refl
sum_counts-bump c ((d, n) ∷ es) = ground (arith, sum_counts-bump c es)

count_of-bump :
    (c d : Text) (es : List (Text × ℕ))
    → count_of d (bump c es) ≡ (if equal c d then count_of d es + 1 else count_of d es)
unfolding bump
count_of-bump c d [] = ground arith
count_of-bump c d ((e, n) ∷ es) =
    ground (arith, equal_iff c d, equal_iff e c, equal_iff e d, count_of-bump c d es)

-- the name under which an error is counted
abbrev pub counted_as : Counting → Text → Text
counted_as toplevel category = top_level category
counted_as _ category = category

abbrev pub occurrences : Counting → Text → List Text → ℕ
occurrences style c [] = 0
occurrences style c (category ∷ rest) =
    (if equal (counted_as style category) c then 1 else 0) + occurrences style c rest

abbrev pub increment_all : List Text → CppLintState → CppLintState
increment_all [] s = s
increment_all (c ∷ cs) s = increment_all cs (increment_error_count c s)

sum_counts-count_category :
    (style : Counting) (c : Text) (es : List (Text × ℕ))
    → CountsCategories style
    → sum_counts (count_category style c es) ≡ sum_counts es + 1
unfolding count_category
sum_counts-count_category total c es h = absurd (h refl)
sum_counts-count_category toplevel c es h = sum_counts-bump (top_level c) es
sum_counts-count_category detailed c es h = sum_counts-bump c es

count_of-count_category :
    (style : Counting) (c d : Text) (es : List (Text × ℕ))
    → CountsCategories style
    → count_of d (count_category style c es)
      ≡ (if equal (counted_as style c) d then 1 else 0) + count_of d es
unfolding count_category
count_of-count_category total c d es h = absurd (h refl)
count_of-count_category toplevel c d es h = ground (arith, count_of-bump (top_level c) d es)
count_of-count_category detailed c d es h = ground (arith, count_of-bump c d es)

-- What a run of counted errors leaves behind, from any state.
record Counted (cs : List Text) (s t : CppLintState) : Type 0 where
  total_grows : t.error_count ≡ s.error_count + length cs
  sum_grows : sum_counts t.errors_by_category ≡ sum_counts s.errors_by_category + length cs
  each_grows :
      (c : Text)
      → count_of c t.errors_by_category
        ≡ count_of c s.errors_by_category + occurrences s.counting c cs

increment_all-Counted :
    (cs : List Text) (s : CppLintState)
    → CountsCategories s.counting
    → Counted cs s (increment_all cs s)
unfolding increment_error_count
increment_all-Counted [] s h = record {
  total_grows = omega arith;
  sum_grows = omega arith;
  each_grows = λ c. omega arith;
}
increment_all-Counted (x ∷ cs) s h =
    let ih = increment_all-Counted cs (increment_error_count x s) h in
    record {
      total_grows = omega (arith, ih.total_grows);
      sum_grows =
          omega
            (arith, ih.sum_grows, sum_counts-count_category s.counting x s.errors_by_category h);
      each_grows = λ c.
          omega
            (arith, ih.each_grows c, count_of-count_category s.counting x c s.errors_by_category h);
    }

-- After a reset and any run of errors, under a style that counts by category, the total is the
-- number of errors, the categories' counts add up to the total, and every category's count is the
-- number of errors that the style counts under that name.
pub increment_all-reset_error_counts :
    (cs : List Text) (s : CppLintState)
    → CountsCategories s.counting
    → let t = increment_all cs (reset_error_counts s) in
      (t.error_count ≡ length cs)
      × (sum_counts t.errors_by_category ≡ t.error_count)
      × ((c : Text) → count_of c t.errors_by_category ≡ occurrences s.counting c cs)
unfolding reset_error_counts
increment_all-reset_error_counts cs s h =
    let c = increment_all-Counted cs (reset_error_counts s) h in
    (
      omega (arith, c.total_grows),
      omega (arith, c.total_grows, c.sum_grows),
      λ d. omega (arith, c.each_grows d),
    )
