-- ===== src/Lint/Suppress/Laws.antt =====
-- Which errors a NOLINT comment suppresses.
use epiphany_bsp.Base.{
  ℕ, ◌≡◌, refl, Bool, true, false, ◌&&◌, ◌||◌, Option, none, some, [], ◌∷◌, arith, ◌==◌, ◌+◌, ◌-◌,
  ◌++◌, length, length-append, suc, take, drop, sym, ap, ◌∙◌, if◌then◌else◌,
}
use epiphany_bsp.Base.Text.{
  Text, text, equal, equal_iff, member, starts_with, ends_with, ends_with-drop, ends_with-append,
}
use epiphany_bsp.Lint.Suppress.{
  Suppressions, same_key, add_suppression, suppressed_lines, has_line,
  is_error_suppressed_by_nolint, Request, suppress, nothing, unknown, nolint_request, apply_request,
  parse_nolint, nolint_pattern, request_of, request_named,
}
use epiphany_bsp.Lint.Categories.{error_categories}
use epiphany_bsp.Base.{take-append, take-append-drop}
use epiphany_bsp.Regex.{Found, group_of, is_found, search_in}

has_line-add_suppression :
    (k j : Option Text) (l n : ℕ) (s : Suppressions)
    → has_line n (suppressed_lines j (add_suppression k l s))
      ≡ (same_key k j && l == n) || has_line n (suppressed_lines j s)
unfolding add_suppression suppressed_lines
has_line-add_suppression none none l n [] = ground arith
has_line-add_suppression none (some d) l n [] = ground arith
has_line-add_suppression (some c) none l n [] = ground arith
has_line-add_suppression (some c) (some d) l n [] = ground arith
has_line-add_suppression none none l n ((none, ls) ∷ s) = ground arith
has_line-add_suppression none (some d) l n ((none, ls) ∷ s) = ground arith
has_line-add_suppression (some c) none l n ((none, ls) ∷ s) =
    ground (arith, has_line-add_suppression (some c) none l n s)
has_line-add_suppression (some c) (some d) l n ((none, ls) ∷ s) =
    ground (arith, has_line-add_suppression (some c) (some d) l n s)
has_line-add_suppression none none l n ((some b, ls) ∷ s) =
    ground (arith, has_line-add_suppression none none l n s)
has_line-add_suppression none (some d) l n ((some b, ls) ∷ s) =
    ground (arith, has_line-add_suppression none (some d) l n s)
has_line-add_suppression (some c) none l n ((some b, ls) ∷ s) =
    ground (arith, has_line-add_suppression (some c) none l n s)
has_line-add_suppression (some c) (some d) l n ((some b, ls) ∷ s) = ground (
  arith,
  equal_iff b c,
  equal_iff b d,
  equal_iff c d,
  has_line-add_suppression (some c) (some d) l n s,
)

-- whether a request covers a category
abbrev covers : Request → Text → Bool
covers (suppress none) c = true
covers (suppress (some d)) c = equal d c
covers nothing c = false
covers (unknown d) c = false

is_suppressed-add :
    (k : Option Text) (l : ℕ) (c : Text) (n : ℕ) (s : Suppressions)
    → is_error_suppressed_by_nolint c n (add_suppression k l s)
      ≡ (covers (suppress k) c && l == n) || is_error_suppressed_by_nolint c n s
unfolding is_error_suppressed_by_nolint
is_suppressed-add none l c n s =
    ground (
      arith,
      has_line-add_suppression none (some c) l n s,
      has_line-add_suppression none none l n s,
    )
is_suppressed-add (some d) l c n s = ground (
  arith,
  has_line-add_suppression (some d) (some c) l n s,
  has_line-add_suppression (some d) none l n s,
)

-- Whether what stands behind the word NOLINT names a category: nothing and `(*)` name all of them, a known
-- category in parentheses names itself.
abbrev pub names : Option Text → Text → Bool
names none c = true
names (some behind) c =
    equal behind (text "(*)")
    || (member c error_categories && equal behind (b'(' ∷ (c ++ b')' ∷ [])))

-- Whether a comment, if there is one, is about a category and a line: the next line with NEXTLINE behind
-- the word, and else its own.
abbrev pub is_named : Option Found → ℕ → Text → ℕ → Bool
is_named none linenum c n = false
is_named (some m) linenum c n =
    names (group_of 2 m.groups) c
    && (if is_found (group_of 1 m.groups) then linenum + 1 else linenum) == n

bool-ext : (a b : Bool) → (a ≡ true → b ≡ true) → (b ≡ true → a ≡ true) → a ≡ b
bool-ext true b f g = sym (f refl)
bool-ext false true f g = g refl
bool-ext false false f g = refl

-- without its parentheses
abbrev inner : Text → Text
inner g = take (length g - 2) (drop 1 g)

abbrev has_parentheses : Text → Bool
has_parentheses g = starts_with g (b'(' ∷ []) && ends_with g (b')' ∷ [])

wrapped :
    (c : Text) → let g = b'(' ∷ (c ++ b')' ∷ []) in (has_parentheses g && equal (inner g) c) ≡ true
unfolding starts_with
wrapped c =
    let ends = ends_with-append (b'(' ∷ c) (b')' ∷ []) in
    let n : length (c ++ b')' ∷ []) ≡ suc (length c) = omega (arith, length-append c (b')' ∷ [])) in
    let k : suc (suc (length c)) - 2 ≡ length c = omega arith in
    rw (ends, n, k, take-append c (b')' ∷ []), (equal_iff c c).1 refl) refl

unwrapped :
    (g c : Text) → (has_parentheses g && equal (inner g) c) ≡ true → g ≡ b'(' ∷ (c ++ b')' ∷ [])
unfolding starts_with
unwrapped [] c h = ground arith
unwrapped (x ∷ []) c h =
    let first : x ≡ b'(' = ground (arith, h) in
    let ends : ends_with (x ∷ []) (b')' ∷ []) ≡ true = ground (arith, h) in
    ground (arith, first, ends_with-drop (x ∷ []) (b')' ∷ []) ends)
unwrapped (x ∷ y ∷ t) c h =
    let n = suc (length t) - 1 in
    let first : x ≡ b'(' = ground (arith, h) in
    let ends : ends_with (x ∷ y ∷ t) (b')' ∷ []) ≡ true = ground (arith, h) in
    let between : equal (inner (x ∷ y ∷ t)) c ≡ true = ground (arith, h) in
    let shorter : n ≡ suc (suc (length t)) - 2 = omega arith in
    let longer : suc n ≡ suc (suc (length t)) - 1 = omega arith in
    let front : take n (y ∷ t) ≡ c = ap (λ k. take k (y ∷ t)) shorter ∙ (equal_iff _ c).0 between in
    let last : drop n (y ∷ t) ≡ b')' ∷ [] =
      ap (λ k. drop k (x ∷ y ∷ t)) longer ∙ ends_with-drop (x ∷ y ∷ t) (b')' ∷ []) ends in
    rw first (
      ap (λ r. b'(' ∷ r)
        (sym (take-append-drop n (y ∷ t))
          ∙ ap (λ r. r ++ drop n (y ∷ t)) front
          ∙ ap (λ r. c ++ r) last))

parentheses :
    (g c : Text) → (has_parentheses g && equal (inner g) c) ≡ equal g (b'(' ∷ (c ++ b')' ∷ []))
parentheses g c =
    bool-ext _ _ (λ h. (equal_iff g _).1 (unwrapped g c h))
      (λ h. let e = (equal_iff g (b'(' ∷ (c ++ b')' ∷ []))).0 h in rw e (wrapped c))

covers-request_of : (g : Option Text) (c : Text) → covers (request_of g) c ≡ names g c
unfolding request_of request_named
covers-request_of none c = refl
covers-request_of (some g) c = rw (← parentheses g c) (grind (arith, equal_iff (inner g) c))

-- A line's NOLINT comment adds to the suppressed errors those on the line that it names, its own or
-- the next one, of the category that it names, or of every category if it names none or `(*)`; it
-- adds no other error, and takes none away.
pub is_error_suppressed_by_nolint-parse_nolint :
    (raw_line : Text) (linenum : ℕ) (c : Text) (n : ℕ) (s : Suppressions)
    → is_error_suppressed_by_nolint c n (parse_nolint raw_line linenum s)
      ≡ is_named (search_in nolint_pattern raw_line) linenum c n
        || is_error_suppressed_by_nolint c n s
unfolding parse_nolint nolint_request
is_error_suppressed_by_nolint-parse_nolint raw_line linenum c n s =
    by_match (search_in nolint_pattern raw_line)
  where
    by_request :
        (line : ℕ) (r : Request)
        → is_error_suppressed_by_nolint c n (apply_request line r s)
          ≡ (covers r c && line == n) || is_error_suppressed_by_nolint c n s
    by_request line (suppress k) = unfold apply_request in is_suppressed-add k line c n s
    by_request line nothing = unfold apply_request in refl
    by_request line (unknown d) = unfold apply_request in refl

    by_match :
        (o : Option Found)
        → is_error_suppressed_by_nolint c n
            (elim (elim o as (λ x. Option (ℕ × Request)) [
              | none ↦ none
              | some m ↦ some (
                if is_found (group_of 1 m.groups) then linenum + 1 else linenum,
                request_of (group_of 2 m.groups),
              )
            ])
              as (λ x. Suppressions) [ none ↦ s | some (line, r) ↦ apply_request line r s ])
          ≡ is_named o linenum c n || is_error_suppressed_by_nolint c n s
    by_match none = refl
    by_match (some m) = rw (← covers-request_of (group_of 2 m.groups) c) (
        by_request (if is_found (group_of 1 m.groups) then linenum + 1 else linenum)
          (request_of (group_of 2 m.groups)))
