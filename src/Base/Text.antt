-- ===== src/Base/Text.antt =====
-- Python's `str` as a list of code points, with the methods that the linter calls.
pub mod Replace
use Prim.Native.Char.{code}
use Prim.Native.String.{String}
use epiphany_bsp.Base.Tests.{ltb, leb, ◌==◌, if◌then◌else◌, Bool-cases}
use epiphany_bsp.Base.Lists.{length, take, drop, length-append, drop-append}
use Prim.Native.Nat.{ℕ, zero, suc, ◌+◌, ◌-◌, ◌/◌, ◌%◌, ◌≤◌}
use mathlib.Core.Path.{◌≡◌, refl}
use mathlib.Core.Logic.{◌↔◌}
use mathlib.Core.Bool.{Bool, true, false, ◌&&◌, ◌||◌}
use mathlib.Core.List.{List, [], ◌∷◌, ◌++◌, map, reverse}
use mathlib.Core.Option
use mathlib.Core.Option.{Option, none, some}
use native.Mathlib.Omega.{arith}

abbrev pub Text : Type 0
Text = List ℕ

-- A literal's code points. It stays shut in proofs, where a message or a category is only passed on.
unfoldable pub text : String → Text
text String.[] = []
text (String.◌∷◌ c s) = code c ∷ text s

-- `s == t`
unfoldable pub equal : Text → Text → Bool
equal [] [] = true
equal (x ∷ xs) (y ∷ ys) = x == y && equal xs ys
equal _ _ = false

-- `s in (…)`
abbrev pub member : Text → List Text → Bool
member s [] = false
member s (t ∷ ts) = equal s t || member s ts

-- `s < t`
unfoldable pub less : Text → Text → Bool
less s [] = false
less [] (y ∷ ys) = true
less (x ∷ xs) (y ∷ ys) = ltb x y || (x == y && less xs ys)

-- `s.startswith(p)`
unfoldable pub starts_with : Text → Text → Bool
starts_with s [] = true
starts_with [] (p ∷ ps) = false
starts_with (c ∷ s) (p ∷ ps) = c == p && starts_with s ps

-- `s.endswith(p)`
unfoldable pub ends_with : Text → Text → Bool
unfolding equal
ends_with s p = leb (length p) (length s) && equal (drop (length s - length p) s) p

-- `s.find(p)`, with `none` for Python's -1
unfoldable pub find : Text → Text → Option ℕ
unfolding starts_with
find [] p = if starts_with [] p then some 0 else none
find (c ∷ s) p = if starts_with (c ∷ s) p then some 0 else Option.map suc (find s p)

-- `p in s`
abbrev pub contains : Text → Text → Bool
contains s p = elim (find s p) [ none ↦ false | some _ ↦ true ]

-- `s.rfind(c)` for one character
unfoldable pub rfind : Text → ℕ → Option ℕ
rfind [] c = none
rfind (d ∷ s) c = elim (rfind s c) [
  | some i ↦ some (suc i)
  | none ↦ if d == c then some 0 else none
]

-- The tail of `s` behind the first `k` characters is what `s[k:]` is.
-- `s.count(p)` for a nonempty `p`: occurrences that do not overlap, from the left. The first number
-- is how many characters of an occurrence are still to be skipped.
count_from : ℕ → Text → Text → ℕ
unfolding starts_with
count_from k [] p = 0
count_from (suc k) (c ∷ s) p = count_from k s p
count_from zero (c ∷ s) p =
    let after = count_from (length p - 1) s p in
    let next = count_from 0 s p in if starts_with (c ∷ s) p then suc after else next

unfoldable pub count : Text → Text → ℕ
unfolding count_from
count s p = count_from 0 s p

-- `s.replace(p, r)` for a nonempty `p`
replace_from : ℕ → Text → Text → Text → Text
unfolding starts_with
replace_from k [] p r = []
replace_from (suc k) (c ∷ s) p r = replace_from k s p r
replace_from zero (c ∷ s) p r =
    let after = replace_from (length p - 1) s p r in
    let next = replace_from 0 s p r in if starts_with (c ∷ s) p then r ++ after else c ∷ next

unfoldable pub replace : Text → Text → Text → Text
unfolding replace_from
replace s p r = replace_from 0 s p r

-- `s.split(sep)` for a separator of one character
unfoldable pub split : Text → ℕ → List Text
split [] sep = [] ∷ []
split (c ∷ s) sep =
    let rest = split s sep in
    if c == sep then [] ∷ rest else elim rest [ [] ↦ (c ∷ []) ∷ [] | w ∷ ws ↦ (c ∷ w) ∷ ws ]

-- `sep.join(ss)`
unfoldable pub join_with : Text → List Text → Text
join_with sep [] = []
join_with sep (s ∷ []) = s
join_with sep (s ∷ t ∷ ts) = s ++ (sep ++ join_with sep (t ∷ ts))

-- The characters that `strip` of a byte string and `\s` take for blanks: tab to carriage return, space.
abbrev pub is_space : ℕ → Bool
is_space c = c == 32 || (leb 9 c && leb c 13)

-- The characters that the methods of a unicode text take for blanks.
abbrev pub is_unicode_space : ℕ → Bool
is_unicode_space c =
    (leb 9 c && leb c 13)
    || (leb 28 c && leb c 32)
    || c == 133
    || c == 160
    || c == 5760
    || c == 6158
    || (leb 8192 c && leb c 8202)
    || c == 8232
    || c == 8233
    || c == 8239
    || c == 8287
    || c == 12288

-- `s.lstrip()`, `s.rstrip()` and `s.strip()` of a byte string
unfoldable pub lstrip : Text → Text
lstrip [] = []
lstrip (c ∷ s) = let rest = lstrip s in if is_space c then rest else c ∷ s

unfoldable pub rstrip : Text → Text
rstrip [] = []
rstrip (c ∷ s) = elim (rstrip s) [ [] ↦ if is_space c then [] else c ∷ [] | d ∷ t ↦ c ∷ d ∷ t ]

unfoldable pub strip : Text → Text
unfolding lstrip rstrip
strip s = rstrip (lstrip s)

-- the same of a unicode text, such as the lines of a file
unfoldable pub unicode_lstrip : Text → Text
unicode_lstrip [] = []
unicode_lstrip (c ∷ s) = let rest = unicode_lstrip s in if is_unicode_space c then rest else c ∷ s

unfoldable pub unicode_rstrip : Text → Text
unicode_rstrip [] = []
unicode_rstrip (c ∷ s) = elim (unicode_rstrip s) [
  | [] ↦ if is_unicode_space c then [] else c ∷ []
  | d ∷ t ↦ c ∷ d ∷ t
]

unfoldable pub unicode_strip : Text → Text
unfolding unicode_lstrip unicode_rstrip
unicode_strip s = unicode_rstrip (unicode_lstrip s)

-- `s.split()` of a unicode text
abbrev pub extend : ℕ → List Text → List Text
extend c [] = (c ∷ []) ∷ []
extend c (w ∷ ws) = (c ∷ w) ∷ ws

unfoldable pub words : Text → List Text
words [] = []
words (c ∷ s) =
    let rest = words s in
    if is_unicode_space c then rest else elim s [
      | [] ↦ (c ∷ []) ∷ []
      | d ∷ t ↦ if is_unicode_space d then (c ∷ []) ∷ rest else extend c rest
    ]

-- `s.lower()` and `s.upper()` on ASCII
abbrev pub lower_char : ℕ → ℕ
lower_char c = if leb 65 c && leb c 90 then c + 32 else c

abbrev pub upper_char : ℕ → ℕ
upper_char c = if leb 97 c && leb c 122 then c - 32 else c

unfoldable pub lower : Text → Text
lower = map lower_char

unfoldable pub upper : Text → Text
upper = map upper_char

-- `'%d' % n`; the fuel is `n + 1`, and a number has no more digits than that
decimal_from : ℕ → ℕ → Text → Text
decimal_from zero n acc = acc
decimal_from (suc f) n acc =
    let more = decimal_from f (n / 10) ((48 + n % 10) ∷ acc) in
    if ltb n 10 then (48 + n) ∷ acc else more

unfoldable pub decimal : ℕ → Text
unfolding decimal_from
decimal n = decimal_from (suc n) n []

pub equal_iff : (s t : Text) → (equal s t ≡ true) ↔ (s ≡ t)
unfolding equal
equal_iff (x ∷ s) (y ∷ t) = ground (arith, equal_iff s t)
equal_iff _ _ = ground arith

pub ends_with-drop : (s p : Text) → ends_with s p ≡ true → drop (length s - length p) s ≡ p
unfolding ends_with
ends_with-drop s p e = ground (arith, equal_iff (drop (length s - length p) s) p)

pub ends_with-append : (p s : Text) → ends_with (p ++ s) s ≡ true
unfolding ends_with
ends_with-append p s =
    let n : length (p ++ s) - length s ≡ length p = omega (arith, length-append p s) in
    rw (n, drop-append p s, (equal_iff s s).1 refl) (ground (arith, length-append p s))
