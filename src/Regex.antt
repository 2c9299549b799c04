-- ===== src/Regex.antt =====
-- Python's `re`, as far as the linter's patterns use it: a backtracking matcher with greedy
-- repetition, groups, lookahead and anchors, and the three helpers of scripts/cpplint.py that call
-- it (`Match`, `Search`, `ReplaceAll`). The helpers' cache of compiled patterns has no effect on a
-- result and is left out. Text is matched one line at a time.
pub mod Compile
use mathlib.Core.List.{reverse}
use Prim.Native.String.{String}
use epiphany_bsp.Base.{
  ℕ, zero, suc, ◌-◌, Bool, true, false, not, ◌||◌, ◌&&◌, Option, none, some, List, [], ◌∷◌, ◌++◌,
  length, take, drop, leb, ltb, ◌==◌, if◌then◌else◌,
}
use epiphany_bsp.Base.Text.{Text, text, is_space}

pub data Regex : Type 0 where
  -- the empty pattern
  empty : Regex
  -- one character of a class
  char : (ℕ → Bool) → Regex
  -- `rs` and `r|s`
  seq alt : Regex → Regex → Regex
  -- `r*` and `r*?`
  star lazy : Regex → Regex
  -- `(r)`, with its number
  group : ℕ → Regex → Regex
  -- `(?=r)` and `(?!r)`
  ahead ahead_not : Regex → Regex
  -- `\1`, the text of a group
  same : ℕ → Regex
  -- `^`, `$` and `\b`
  line_start line_end boundary : Regex

-- A place in a line: what stands before it, last character first, and what stands behind it.
pub record Cursor : Type 0 where
  pub before : Text
  pub behind : Text

abbrev pub Groups : Type 0
Groups = List (ℕ × Text)

abbrev pub Outcome : Type 0
Outcome = Option (Cursor × Groups)

abbrev pub Continue : Type 0
Continue = Cursor → Groups → Outcome

abbrev pub advance : ℕ → Text → Cursor → Cursor
advance c rest p = record { before = c ∷ p.before; behind = rest }

-- The text between two places of one line.
abbrev pub between : Cursor → Cursor → Text
between p q = reverse (take (length q.before - length p.before) q.before)

abbrev pub is_word : ℕ → Bool
is_word c = (leb 97 c && leb c 122) || (leb 65 c && leb c 90) || (leb 48 c && leb c 57) || c == 95

abbrev pub word_first : Text → Bool
word_first [] = false
word_first (c ∷ s) = is_word c

abbrev pub at_boundary : Cursor → Bool
at_boundary p =
    (word_first p.before && not (word_first p.behind))
    || (not (word_first p.before) && word_first p.behind)

abbrev pub at_end : Text → Bool
at_end [] = true
at_end (c ∷ []) = c == 10
at_end _ = false

abbrev pub is_nil : Text → Bool
is_nil [] = true
is_nil _ = false

-- One round of a repetition must consume something; the fuel is the length of what is left.
abbrev pub repeat :
    (Cursor → Groups → Continue → Outcome) → ℕ → Cursor → Groups → Continue → Outcome
repeat body zero p g k = k p g
repeat body (suc f) p g k =
    elim (body p g
      (λ q h. if ltb (length q.behind) (length p.behind) then repeat body f q h k else none)) [
        | some r ↦ some r
        | none ↦ k p g
      ]

-- The same, with as few rounds as possible.
abbrev pub repeat_lazy :
    (Cursor → Groups → Continue → Outcome) → ℕ → Cursor → Groups → Continue → Outcome
repeat_lazy body zero p g k = k p g
repeat_lazy body (suc f) p g k = elim (k p g) [
  | some r ↦ some r
  | none ↦
      body p g
        (λ q h. if ltb (length q.behind) (length p.behind) then repeat_lazy body f q h k else none)
]

-- `m.group(n)`, with `none` for a group that took no part
abbrev pub group_of : ℕ → Groups → Option Text
group_of n [] = none
group_of n ((m, t) ∷ g) = if m == n then some t else group_of n g

-- the place behind a text, if the text stands at the place
abbrev pub pass : Text → Cursor → Text → Option Cursor
pass [] p s = some (record { before = p.before; behind = s })
pass (c ∷ t) p [] = none
pass (c ∷ t) p (d ∷ s) =
    let further = pass t (record { before = d ∷ p.before; behind = s }) s in
    if c == d then further else none

abbrev pub match_same : Option Text → Cursor → Groups → Continue → Outcome
match_same none p g k = none
match_same (some t) p g k = elim (pass t p p.behind) [ none ↦ none | some q ↦ k q g ]

abbrev pub match_char : (ℕ → Bool) → Cursor → Text → Groups → Continue → Outcome
match_char cls p [] g k = none
match_char cls p (c ∷ rest) g k = if cls c then k (advance c rest p) g else none

unfoldable pub run : Regex → Cursor → Groups → Continue → Outcome
run empty p g k = k p g
run (char cls) p g k = match_char cls p p.behind g k
run (seq r s) p g k = run r p g (λ q h. run s q h k)
run (alt r s) p g k = elim (run r p g k) [ some o ↦ some o | none ↦ run s p g k ]
run (star r) p g k = repeat (run r) (length p.behind) p g k
run (lazy r) p g k = repeat_lazy (run r) (length p.behind) p g k
run (same n) p g k = match_same (group_of n g) p g k
run (group n r) p g k = run r p g (λ q h. k q ((n, between p q) ∷ h))
run (ahead r) p g k = elim (run r p g (λ q h. some (q, h))) [ some (_, h) ↦ k p h | none ↦ none ]
run (ahead_not r) p g k = elim (run r p g (λ q h. some (q, h))) [ some _ ↦ none | none ↦ k p g ]
run line_start p g k = if is_nil p.before then k p g else none
run line_end p g k = if at_end p.behind then k p g else none
run boundary p g k = if at_boundary p then k p g else none

-- A match object: the text before it, the text it covers, the text behind it, and its groups.
pub record Found : Type 0 where
  pub head : Text
  pub covered : Text
  pub tail : Text
  pub groups : Groups

abbrev pub found_at : Cursor → Cursor → Groups → Found
found_at p q g = record {
  head = reverse p.before;
  covered = between p q;
  tail = q.behind;
  groups = g;
}

-- `m.group(n)` for a group that always takes part
abbrev pub group_text : ℕ → Found → Text
group_text n m = elim (group_of n m.groups) [ some t ↦ t | none ↦ [] ]

abbrev pub start : Text → Cursor
start s = record { before = []; behind = s }

unfoldable pub match_from : Regex → Cursor → Option Found
unfolding run
match_from r p = elim (run r p [] (λ q h. some (q, h))) [
  | none ↦ none
  | some (q, g) ↦ some (found_at p q g)
]

-- the first place, from the left, at which the pattern matches
search_from : Regex → Text → Text → Option Found
unfolding match_from
search_from r before [] = match_from r (record { before = before; behind = [] })
search_from r before (c ∷ s) = elim (match_from r (record { before = before; behind = c ∷ s })) [
  | some m ↦ some m
  | none ↦ search_from r (c ∷ before) s
]

-- `Match(pattern, s)` and `Search(pattern, s)`
unfoldable pub match : Regex → Text → Option Found
unfolding match_from
match r s = match_from r (start s)

unfoldable pub search_in : Regex → Text → Option Found
unfolding search_from
search_in r s = search_from r [] s

abbrev pub is_found {ℓ} : {A : Type ℓ} → Option A → Bool
is_found none = false
is_found (some m) = true

-- `bool(Match(pattern, s))` and `bool(Search(pattern, s))`
abbrev pub matches : Regex → Text → Bool
matches r s = is_found (match r s)

abbrev pub occurs : Regex → Text → Bool
occurs r s = is_found (search_in r s)

-- `pattern.sub(f, s)` for a pattern that never matches the empty text: matches are replaced from the
-- left and do not overlap. The fuel is the length of the text.
sub_from : ℕ → Regex → (Found → Text) → Text → Text → Text
unfolding search_from
sub_from zero r f before s = s
sub_from (suc n) r f before s = elim (search_from r before s) [
  | none ↦ s
  | some m ↦
      drop (length before) m.head ++ (f m ++ sub_from n r f (reverse (m.head ++ m.covered)) m.tail)
]

-- `ReplaceAll(pattern, rep, s)`
unfoldable pub replace_all : Regex → Text → Text → Text
unfolding sub_from
replace_all r rep s = sub_from (length s) r (λ m. rep) [] s

unfoldable pub replace_with : Regex → (Found → Text) → Text → Text
unfolding sub_from
replace_with r f s = sub_from (length s) r f [] s

-- Notation for patterns.
infixr 66 ◌⊙◌
abbrev pub ◌⊙◌ : Regex → Regex → Regex
r ⊙ s = seq r s

infixr 64 ◌⊕◌
abbrev pub ◌⊕◌ : Regex → Regex → Regex
r ⊕ s = alt r s

-- `r+` and `r?`
abbrev pub plus : Regex → Regex
plus r = seq r (star r)

abbrev pub opt : Regex → Regex
opt r = alt r empty

abbrev pub one : ℕ → Regex
one c = char (◌==◌ c)

abbrev pub one_of_codes : List ℕ → ℕ → Bool
one_of_codes [] c = false
one_of_codes (d ∷ ds) c = d == c || one_of_codes ds c

-- `[…]` and `[^…]`
abbrev pub one_of : String → Regex
one_of s = char (one_of_codes (text s))

abbrev pub none_of : String → Regex
none_of s = char (λ c. not (one_of_codes (text s) c))

-- `.`, `\s`, `\S`, `\w`, `\W`, `\d`
abbrev pub any_char : Regex
any_char = char (λ c. not (c == 10))

abbrev pub space : Regex
space = char is_space

abbrev pub spaces : Regex
spaces = star space

abbrev pub non_space : Regex
non_space = char (λ c. not (is_space c))

abbrev pub word : Regex
word = char is_word

abbrev pub non_word : Regex
non_word = char (λ c. not (is_word c))

abbrev pub digit : Regex
digit = char (λ c. leb 48 c && leb c 57)

-- the characters of a text, in order
abbrev pub codes : Text → Regex
codes [] = empty
codes (c ∷ s) = seq (one c) (codes s)

abbrev pub lit : String → Regex
lit s = codes (text s)

-- `s|t|…` for literal texts
abbrev pub any_of : List String → Regex
any_of [] = empty
any_of (s ∷ []) = lit s
any_of (s ∷ t ∷ ss) = alt (lit s) (any_of (t ∷ ss))
