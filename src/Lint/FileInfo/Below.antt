-- ===== src/Lint/FileInfo/Below.antt =====
-- Which part of a file's full name `FileInfo.RepositoryName` of scripts/cpplint.py leaves.
use mathlib.Core.List.{
  append-nil, append_assoc, reverse, reverse-append, reverse-cons, reverse-reverse,
}
use epiphany_bsp.Base.{
  ℕ, zero, suc, ◌+◌, ◌≡◌, refl, sym, ap, ◌∙◌, ◌⊎◌, inl, inr, Bool, true, false, ◌&&◌, ◌||◌, [], ◌∷◌,
  ◌++◌, length, drop, drop-append, length-append, arith, Bool-cases, ◌==◌,
}
use epiphany_bsp.Base.Text.{Text, text, equal}
use epiphany_bsp.Lint.FileInfo.{
  FileSystem, dirname, split_path, is_checkout, top_checkout, until_last, strip_char, head_of,
  common_prefix, below, repository_name, full_name, has_mark,
}

-- nothing but slashes
abbrev pub only_slashes : Text → Bool
only_slashes [] = true
only_slashes (c ∷ s) = c == b'/' && only_slashes s

only_slashes-append : (s t : Text) → only_slashes (s ++ t) ≡ only_slashes s && only_slashes t
only_slashes-append [] t = refl
only_slashes-append (c ∷ s) t = ground (arith, only_slashes-append s t)

only_slashes-reverse : (s : Text) → only_slashes s ≡ true → only_slashes (reverse s) ≡ true
only_slashes-reverse [] h = refl
only_slashes-reverse (c ∷ s) h =
    let first : (c == b'/') ≡ true = ground (arith, h) in
    let rest = only_slashes-reverse s (ground (arith, h)) in
    rw (reverse-cons c s, only_slashes-append (reverse s) (c ∷ []), rest, first) refl

-- a path and a directory above it, with a slash between
pub IsBelow : Text → Text → Type 0
IsBelow root path = (rest : Text) × (path ≡ root ++ b'/' ∷ rest)

-- the text in front of the separator, and the separator with what stands behind it
until_last-append : (sep : ℕ) (s : Text) → (until_last sep s).0 ++ (until_last sep s).1 ≡ s
until_last-append sep [] = refl
until_last-append sep (c ∷ s) = ground (arith, until_last-append sep s)

until_last-front :
    (sep : ℕ) (s : Text)
    → ((until_last sep s).1 ≡ []) ⊎ ((rest : Text) × ((until_last sep s).1 ≡ sep ∷ rest))
until_last-front sep [] = inl refl
until_last-front sep (c ∷ s) = elim (Bool-cases (c == sep)) [
  | inl t ↦ inr (s, ground (arith, t))
  | inr n ↦ elim (until_last-front sep s) [
    | inl e ↦ inl (ground (arith, n, e))
    | inr (r, e) ↦ inr (r, ground (arith, n, e))
  ]
]

-- what is stripped ends with a slash
strip_char-parts :
    (s : Text) → (strip_char b'/' s ≡ s) ⊎ ((x : Text) × (s ≡ x ++ b'/' ∷ strip_char b'/' s))
strip_char-parts [] = inl refl
strip_char-parts (c ∷ s) = elim (Bool-cases (c == b'/')) [
  | inl t ↦
      let same : c ≡ b'/' = ground (arith, t) in
      elim (strip_char-parts s) [
        | inl e ↦ inr ([], rw (t, e, same) refl)
        | inr (x, e) ↦ inr (c ∷ x, rw t (ap (λ r. c ∷ r) e))
      ]
  | inr n ↦ inl (rw n refl)
]

strip_char-nil : (s : Text) → strip_char b'/' s ≡ [] → only_slashes s ≡ true
strip_char-nil [] h = refl
strip_char-nil (c ∷ s) h = elim (Bool-cases (c == b'/')) [
  | inl t ↦ rw t (strip_char-nil s (ground (arith, h, t)))
  | inr n ↦ ground (arith, h, n)
]

last_slash : (r : Text) → (x : Text) × (b'/' ∷ r ≡ x ++ b'/' ∷ strip_char b'/' r)
last_slash r = elim (strip_char-parts r) [
  | inl e ↦ ([], ap (λ t. b'/' ∷ t) (sym e))
  | inr (x, e) ↦ (b'/' ∷ x, ap (λ t. b'/' ∷ t) e)
]

turned :
    (name x t : Text) → reverse (name ++ (x ++ b'/' ∷ t)) ≡ reverse t ++ b'/' ∷ reverse (name ++ x)
turned name x t =
    ap reverse (sym (append_assoc name x (b'/' ∷ t)))
    ∙ reverse-append (name ++ x) (b'/' ∷ t)
    ∙ ap (λ s. s ++ reverse (name ++ x)) (reverse-cons b'/' t)
    ∙ append_assoc (reverse t) (b'/' ∷ []) (reverse (name ++ x))

front-cases :
    (name r t : Text)
    → strip_char b'/' r ≡ t
    → IsBelow (head_of (b'/' ∷ r)) (reverse (name ++ b'/' ∷ r))
      ⊎ (only_slashes (head_of (b'/' ∷ r)) ≡ true)
unfolding IsBelow
front-cases name r [] h = inr (rw h (only_slashes-reverse (b'/' ∷ r) (strip_char-nil r h)))
front-cases name r (c ∷ u) h =
    let (x, e) = last_slash r in inl (reverse (name ++ x), rw (e, h) (turned name x (c ∷ u)))

dirname-IsBelow : (p : Text) → IsBelow (dirname p) p ⊎ (only_slashes (dirname p) ≡ true)
unfolding dirname split_path
dirname-IsBelow p =
    let parts = until_last b'/' (reverse p) in
    elim (until_last-front b'/' (reverse p)) [
      | inl e ↦ inr (ap (λ f. only_slashes (head_of f)) e)
      | inr (r, e) ↦
          let whole : reverse (parts.0 ++ b'/' ∷ r) ≡ p =
            ap (λ f. reverse (parts.0 ++ f)) (sym e)
            ∙ ap reverse (until_last-append b'/' (reverse p))
            ∙ reverse-reverse p in
          rw e (rw (← whole) (front-cases parts.0 r _ refl))
    ]

-- One step of the climb: what is below the root, or the root, lies below it.
step-IsBelow :
    (root p : Text)
    → only_slashes root ≡ false
    → (dirname p ≡ root) ⊎ IsBelow root (dirname p)
    → IsBelow root p
unfolding IsBelow
step-IsBelow root p h k = elim (dirname-IsBelow p) [
  | inl (rest, e) ↦ elim k [
    | inl same ↦ (rest, e ∙ ap (λ d. d ++ b'/' ∷ rest) same)
    | inr (r, e') ↦ (
      r ++ b'/' ∷ rest,
      e ∙ ap (λ d. d ++ b'/' ∷ rest) e' ∙ append_assoc root (b'/' ∷ r) (b'/' ∷ rest),
    )
  ]
  | inr slashes ↦ elim k [
    | inl same ↦ absurd (ground (arith, h, ap only_slashes same, slashes))
    | inr (r, e') ↦
        absurd (ground (arith, h, ap only_slashes e', slashes, only_slashes-append root (b'/' ∷ r)))
  ]
]

common_prefix_self : (s t : Text) → common_prefix s (s ++ t) ≡ s
unfolding common_prefix
common_prefix_self [] t = refl
common_prefix_self (c ∷ s) t = ground (arith, common_prefix_self s t)

drop-below : (root rest : Text) → drop (length root + 1) (root ++ b'/' ∷ rest) ≡ rest
drop-below root rest =
    let n : length root + 1 ≡ length (root ++ b'/' ∷ []) =
      omega (arith, length-append root (b'/' ∷ [])) in
    rw (n, sym (append_assoc root (b'/' ∷ []) rest)) (drop-append (root ++ b'/' ∷ []) rest)

module _ (fs : FileSystem) where
  top_checkout-IsBelow :
      (f : ℕ) (dir : Text)
      → only_slashes (top_checkout fs f dir) ≡ false
      → (dir ≡ top_checkout fs f dir) ⊎ IsBelow (top_checkout fs f dir) dir
  unfolding top_checkout
  top_checkout-IsBelow zero dir h = inl refl
  top_checkout-IsBelow (suc f) dir h =
      elim (Bool-cases (equal dir (dirname dir) || is_checkout fs dir)) [
        | inl e ↦ rw e (inl refl)
        | inr e ↦
            let top = top_checkout fs f (dirname dir) in
            let kept : only_slashes top ≡ false = ground (arith, e, h) in
            rw e (inr (step-IsBelow top dir kept (top_checkout-IsBelow f (dirname dir) kept)))
      ]

  below-IsBelow :
      (root p : Text)
      → only_slashes root ≡ false
      → (dirname p ≡ root) ⊎ IsBelow root (dirname p)
      → p ≡ root ++ b'/' ∷ below fs root (dirname p) p
  unfolding below IsBelow
  below-IsBelow root p h k =
      let (rest, e) = step-IsBelow root p h k in
      let prefix : common_prefix root (dirname p) ≡ root = elim k [
        | inl same ↦
            rw same (ap (common_prefix root) (sym (append-nil root)) ∙ common_prefix_self root [])
        | inr (r, e') ↦ rw e' (common_prefix_self root (b'/' ∷ r))
      ] in
      let tail : drop (length root + 1) p ≡ rest =
        ap (drop (length root + 1)) e ∙ drop-below root rest in
      rw (prefix, tail) e

  -- Where the file exists, its directory has no .svn, and the way up from there comes to a directory with
  -- .git, .hg or .svn whose name is not only slashes, the full name is the name of that directory, a slash,
  -- and what RepositoryName gives.
  pub repository_name-IsBelow :
      (filename root : Text)
      → fs.exists (full_name fs filename) ≡ true
      → has_mark fs (text ".svn") (dirname (full_name fs filename)) ≡ false
      → top_checkout fs (length (full_name fs filename)) (dirname (full_name fs filename)) ≡ root
      → is_checkout fs root ≡ true
      → only_slashes root ≡ false
      → full_name fs filename ≡ root ++ b'/' ∷ repository_name fs filename
  unfolding repository_name
  repository_name-IsBelow filename root there plain e marked named =
      let path = full_name fs filename in
      let top = top_checkout fs (length path) (dirname path) in
      let ends : is_checkout fs top ≡ true = ap (is_checkout fs) e ∙ marked in
      let kept : only_slashes top ≡ false = ap only_slashes e ∙ named in
      rw (there, plain, ends)
        (below-IsBelow top path kept (top_checkout-IsBelow (length path) (dirname path) kept)
          ∙ ap (λ d. d ++ b'/' ∷ below fs top (dirname path) path) e)
