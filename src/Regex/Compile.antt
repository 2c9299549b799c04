-- ===== src/Regex/Compile.antt =====
-- `re.compile`: from the text of a pattern to the pattern, for the syntax that the linter uses:
-- alternatives, groups `(`, `(?:`, `(?=` and `(?!`, classes, escapes, `^`, `$`, `.`, `\b`, `\1`, and the
-- repetitions `*`, `+`, `?`, `*?`, `+?`, `{n}` and `{m,n}`. Text outside this syntax stands for itself.
use Prim.Native.String.{String}
use epiphany_bsp.Base.{
  ℕ, zero, suc, ◌+◌, ◌-◌, ◌*◌, Bool, false, not, ◌||◌, ◌&&◌, Option, none, some, [], ◌∷◌, length,
  drop, leb, ◌==◌, if◌then◌else◌,
}
use epiphany_bsp.Base.Text.{Text, text, is_space, starts_with}
use epiphany_bsp.Regex.{
  Regex, empty, char, seq, alt, star, lazy, same, group, ahead, ahead_not, line_start, line_end,
  boundary, is_word, one, opt, any_char,
}

abbrev pub is_digit : ℕ → Bool
is_digit c = leb 48 c && leb c 57

-- the characters that an escape stands for, in a class or outside
abbrev escaped : ℕ → ℕ → Bool
escaped e c =
    if e == b's'
    then is_space c
    else if e == b'S'
    then not (is_space c)
    else if e == b'w'
    then is_word c
    else if e == b'W'
    then not (is_word c)
    else if e == b'd'
    then is_digit c
    else if e == b't'
    then c == 9
    else if e == b'n'
    then c == 10
    else c == e

abbrev or_class : (ℕ → Bool) → (ℕ → Bool) → ℕ → Bool
or_class p q c = p c || q c

-- the items of a class up to its `]`, and what stands behind it
class_items : (ℕ → Bool) → Text → (ℕ → Bool) × Text
class_items p [] = (p, [])
class_items p (c ∷ []) = (p, [])
class_items p (c ∷ d ∷ []) =
    let escape = class_items (or_class p (escaped d)) [] in
    let single = class_items (or_class p (λ x. x == c)) (d ∷ []) in
    if c == b']' then (p, d ∷ []) else if c == b'\\' then escape else single
class_items p (c ∷ d ∷ e ∷ s) =
    let escape = class_items (or_class p (escaped d)) (e ∷ s) in
    let range = class_items (or_class p (λ x. leb c x && leb x e)) s in
    let single = class_items (or_class p (λ x. x == c)) (d ∷ e ∷ s) in
    if c == b']'
    then (p, d ∷ e ∷ s)
    else if c == b'\\'
    then escape
    else if d == b'-' && not (e == b']')
    then range
    else single

class_of : Text → Regex × Text
unfolding class_items
class_of s =
    if starts_with s (b'^' ∷ [])
    then (let (p, rest) = class_items (λ c. false) (drop 1 s) in (char (λ c. not (p c)), rest))
    else (let (p, rest) = class_items (λ c. false) s in (char p, rest))

escape_of : ℕ → Regex
escape_of e = if e == b'b' then boundary else if is_digit e then same (e - 48) else char (escaped e)

-- a number and what stands behind it
number : ℕ → Text → ℕ × Text
number n [] = (n, [])
number n (c ∷ s) =
    let more = number (10 * n + (c - 48)) s in if is_digit c then more else (n, c ∷ s)

times : ℕ → Regex → Regex
times zero r = empty
times (suc n) r = seq r (times n r)

up_to : ℕ → Regex → Regex
up_to zero r = empty
up_to (suc n) r = opt (seq r (up_to n r))

-- what stands in the braces behind an opening one, as a number of repetitions
braces : Regex → Text → Option (Regex × Text)
unfolding number times up_to
braces r [] = none
braces r (c ∷ s) =
    let (m, rest) = number 0 (c ∷ s) in
    let (n, rest2) = number 0 (drop 1 rest) in
    if not (is_digit c)
    then none
    else if starts_with rest (b'}' ∷ [])
    then some (times m r, drop 1 rest)
    else if starts_with rest (b',' ∷ []) && starts_with rest2 (b'}' ∷ [])
    then some (seq (times m r) (up_to (n - m) r), drop 1 rest2)
    else none

-- the repetition behind a pattern, if there is one
quantify : Regex → Text → Regex × Text
unfolding braces
quantify r [] = (r, [])
quantify r (c ∷ s) =
    let shortest = starts_with s (b'?' ∷ []) in
    if c == b'*'
    then (if shortest then (lazy r, drop 1 s) else (star r, s))
    else if c == b'+'
    then (if shortest then (seq r (lazy r), drop 1 s) else (seq r (star r), s))
    else if c == b'?'
    then (opt r, s)
    else if c == b'{'
    then elim (braces r s) [ some (q, rest) ↦ (q, rest) | none ↦ (r, c ∷ s) ]
    else (r, c ∷ s)

-- a pattern, the number of the next group, and the text behind it
pub record Parsed : Type 0 where
  regex : Regex
  next : ℕ
  rest : Text

abbrev inside : (Regex → Regex) → Parsed → Parsed
inside f p = record p { regex = f p.regex; rest = drop 1 p.rest }

-- A level of nesting and a character of the text take three calls at most.
mutual
  unfolding class_of escape_of quantify starts_with

  alternatives : ℕ → ℕ → Text → Parsed
  alternatives zero n s = record { regex = empty; next = n; rest = s }
  alternatives (suc f) n s =
      let first = sequence f n s in
      let others = alternatives f first.next (drop 1 first.rest) in
      if starts_with first.rest (b'|' ∷ [])
      then record others { regex = alt first.regex others.regex }
      else first

  sequence : ℕ → ℕ → Text → Parsed
  sequence zero n s = record { regex = empty; next = n; rest = s }
  sequence (suc f) n [] = record { regex = empty; next = n; rest = [] }
  sequence (suc f) n (c ∷ s) =
      let first = atom f n c s in
      let (r, rest) = quantify first.regex first.rest in
      let others = sequence f first.next rest in
      if c == b')' || c == b'|'
      then record { regex = empty; next = n; rest = c ∷ s }
      else record others { regex = seq r others.regex }

  atom : ℕ → ℕ → ℕ → Text → Parsed
  atom zero n c s = record { regex = empty; next = n; rest = s }
  atom (suc f) n c s =
      let plain = inside (λ r. r) (alternatives f n (drop 2 s)) in
      let seen = inside ahead (alternatives f n (drop 2 s)) in
      let unseen = inside ahead_not (alternatives f n (drop 2 s)) in
      let numbered = inside (group n) (alternatives f (suc n) s) in
      let (class, behind) = class_of s in
      if c == b'('
      then (if starts_with s (b'?' ∷ b':' ∷ [])
          then plain
          else if starts_with s (b'?' ∷ b'=' ∷ [])
          then seen
          else if starts_with s (b'?' ∷ b'!' ∷ [])
          then unseen
          else numbered)
      else if c == b'['
      then record { regex = class; next = n; rest = behind }
      else if c == b'\\'
      then (elim s [
        | [] ↦ record { regex = one c; next = n; rest = [] }
        | e ∷ t ↦ record { regex = escape_of e; next = n; rest = t }
      ])
      else record {
        regex =
            if c == b'^'
            then line_start
            else if c == b'$'
            then line_end
            else if c == b'.'
            then any_char
            else one c;
        next = n;
        rest = s;
      }

-- `re.compile(s)`, for a text and for a literal
unfoldable pub pattern : Text → Regex
unfolding alternatives
pattern s = (alternatives (3 * length s + 3) 1 s).regex

unfoldable pub re : String → Regex
unfolding pattern text
re s = pattern (text s)

-- `re.escape(s)`
unfoldable pub escape : Text → Text
escape [] = []
escape (c ∷ s) =
    let rest = escape s in if is_word c && not (c == b'_') then c ∷ rest else b'\\' ∷ c ∷ rest
