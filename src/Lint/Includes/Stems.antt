-- ===== src/Lint/Includes/Stems.antt =====
-- What `_DropCommonSuffixes` leaves of a name.
use mathlib.Core.List.{append_assoc}
use epiphany_bsp.Base.{
  ℕ, zero, suc, ◌<◌, ◌-◌, ◌≡◌, refl, sym, ap, ◌∙◌, ◌⊎◌, inl, inr, Bool, true, false, ◌&&◌, Option,
  none, some, List, [], ◌∷◌, ◌++◌, length, take, drop, get_or, ltb, arith, take-append-drop,
  take-append, get_or-append, length-append, ◌+◌, ◌==◌, Bool-cases, if◌then◌else◌,
}
use epiphany_bsp.Base.Text.{Text, ends_with, ends_with-drop, ends_with-append}
use epiphany_bsp.Lint.FileInfo.{splitext}
use epiphany_bsp.Lint.Includes.{
  drop_suffix, drop_first_suffix, drop_common_suffixes, common_suffixes, is_separator,
}

drop-get_or : (k : ℕ) (s : Text) → k < length s → drop k s ≡ get_or s k 0 ∷ drop (suc k) s
drop-get_or k [] h = ground arith
drop-get_or zero (c ∷ s) h = refl
drop-get_or (suc k) (c ∷ s) h = drop-get_or k s (omega (arith, h))

-- a name that is a stem, a dash or an underscore, and a suffix
pub HasSuffix : Text → Text → Text → Type 0
HasSuffix name stem suffix = (c : ℕ) × ((c ≡ b'-') ⊎ (c ≡ b'_')) × (name ≡ stem ++ c ∷ suffix)

dash_or_underscore : (c : ℕ) → is_separator c ≡ true → (c ≡ b'-') ⊎ (c ≡ b'_')
dash_or_underscore c h = elim (Bool-cases (c == b'-')) [
  | inl e ↦ inl (ground (arith, e))
  | inr e ↦ inr (ground (arith, e, h))
]

separates : (c : ℕ) → (c ≡ b'-') ⊎ (c ≡ b'_') → is_separator c ≡ true
separates c (inl e) = rw e refl
separates c (inr e) = rw e refl

separated :
    (name suffix : Text)
    → drop (length name - length suffix) name ≡ suffix
    → length suffix < length name
    → name
      ≡ take (length name - length suffix - 1) name
        ++ get_or name (length name - length suffix - 1) 0 ∷ suffix
separated name suffix e h =
    let k = length name - length suffix - 1 in
    sym (take-append-drop k name)
    ∙ ap (λ t. take k name ++ t)
        (drop-get_or k name (omega (arith, h))
          ∙ ap (λ t. get_or name k 0 ∷ t)
              (ap (λ n. drop n name) {x = suc k} {y = length name - length suffix}
                  (omega (arith, h))
                ∙ e))

if-some : (b : Bool) (x y : Text) → (if b then some x else none) ≡ some y → (b ≡ true) × (x ≡ y)
if-some true x y e = (refl, cc)
if-some false x y e = ground arith

both : (a b c : Bool) → ((a && b) && c) ≡ true → (a ≡ true) × (b ≡ true) × (c ≡ true)
both true true true e = (refl, refl, refl)
both _ _ _ e = ground arith

ltb-lt : (m n : ℕ) → ltb m n ≡ true → m < n
ltb-lt m n e = ground arith

drop_suffix-HasSuffix :
    (name suffix stem : Text) → drop_suffix name suffix ≡ some stem → HasSuffix name stem suffix
unfolding drop_suffix HasSuffix
drop_suffix-HasSuffix name suffix stem e =
    let k = length name - length suffix - 1 in
    let (t, front) =
      if-some
        ((ends_with name suffix && ltb (length suffix) (length name))
          && is_separator (get_or name k 0))
        (take k name) stem e in
    let (ends, shorter, separator) =
      both (ends_with name suffix) (ltb (length suffix) (length name))
        (is_separator (get_or name k 0)) t in
    (
      get_or name k 0,
      dash_or_underscore _ separator,
      separated name suffix (ends_with-drop name suffix ends) (ltb-lt _ _ shorter)
          ∙ ap (λ f. f ++ get_or name k 0 ∷ suffix) front,
    )

HasSuffix-drop_suffix :
    (name suffix stem : Text) → HasSuffix name stem suffix → drop_suffix name suffix ≡ some stem
unfolding drop_suffix HasSuffix
HasSuffix-drop_suffix name suffix stem (c, separator, e) =
    let whole : name ≡ (stem ++ c ∷ []) ++ suffix = e ∙ sym (append_assoc stem (c ∷ []) suffix) in
    let ends : ends_with name suffix ≡ true = rw whole (ends_with-append (stem ++ c ∷ []) suffix) in
    let n : length name ≡ length stem + suc (length suffix) =
      rw e (length-append stem (c ∷ suffix)) in
    let k : length name - length suffix - 1 ≡ length stem = omega (arith, n) in
    let longer : ltb (length suffix) (length name) ≡ true = ground (arith, n) in
    let at : get_or name (length stem) 0 ≡ c = rw e (get_or-append stem c suffix 0) in
    let front : take (length stem) name ≡ stem = rw e (take-append stem (c ∷ suffix)) in
    rw (ends, longer, k, at, separates c separator, front) refl

-- what is left of a name, by the first suffix of a list that it has, or by its extension
abbrev pub IsStem : Text → Text → List Text → Type 0
IsStem name stem [] = stem ≡ (splitext name).0
IsStem name stem (suffix ∷ suffixes) =
    HasSuffix name stem suffix
    ⊎ (((t : Text) → ¬ HasSuffix name t suffix) × IsStem name stem suffixes)

either-IsStem :
    (name suffix later : Text) (suffixes : List Text) (x : Option Text)
    → drop_suffix name suffix ≡ x
    → IsStem name later suffixes
    → IsStem name (elim x [ some stem ↦ stem | none ↦ later ]) (suffix ∷ suffixes)
either-IsStem name suffix later suffixes none e h =
    inr (
      λ t has. (let found = HasSuffix-drop_suffix name suffix t has in ground (arith, e, found)),
      h,
    )
either-IsStem name suffix later suffixes (some stem) e h =
    inl (drop_suffix-HasSuffix name suffix stem e)

drop_first_suffix-IsStem :
    (name : Text) (suffixes : List Text) → IsStem name (drop_first_suffix name suffixes) suffixes
unfolding drop_first_suffix
drop_first_suffix-IsStem name [] = refl
drop_first_suffix-IsStem name (suffix ∷ suffixes) =
    either-IsStem name suffix (drop_first_suffix name suffixes) suffixes (drop_suffix name suffix)
      refl (drop_first_suffix-IsStem name suffixes)

-- The name that _DropCommonSuffixes leaves is followed, in the file's name, by a dash or an
-- underscore and the first of its suffixes that stands at the end of the file's name behind one of these;
-- where no suffix does, it is the file's name without its extension.
pub drop_common_suffixes-IsStem :
    (name : Text) → IsStem name (drop_common_suffixes name) common_suffixes
unfolding drop_common_suffixes
drop_common_suffixes-IsStem name = drop_first_suffix-IsStem name common_suffixes
