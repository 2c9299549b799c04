-- ===== src/Lint/IncludeState/Headers.antt =====
-- Which headers `FindHeader` finds.
use epiphany_bsp.Base.{
  ℕ, ◌≡◌, refl, ap, ◌∙◌, true, false, Bool-cases, inl, inr, ◌≢◌, Option, none, some, List, [], ◌∷◌,
  ◌++◌, arith, if◌then◌else◌,
}
use epiphany_bsp.Base.Text.{Text, text, equal, equal_iff, member}
use epiphany_bsp.Lint.IncludeState.{
  clear_last, reset_list, reset_section, IncludeState, find_in_section, find_in_list, find_header,
  append_last, add_header,
}

abbrev pub or_else : Option ℕ → Option ℕ → Option ℕ
or_else none b = b
or_else (some a) b = some a

find_in_section-append :
    (k h : Text) (n : ℕ) (l : List (Text × ℕ))
    → find_in_section k (l ++ (h, n) ∷ [])
      ≡ or_else (find_in_section k l) (if equal h k then some n else none)
unfolding find_in_section
find_in_section-append k h n [] = ground arith
find_in_section-append k h n ((j, m) ∷ l) = ground (arith, find_in_section-append k h n l)

find_in_list-append_last :
    (k h : Text) (n : ℕ) (ls : List (List (Text × ℕ)))
    → ls ≢ []
    → find_in_list k (append_last (h, n) ls)
      ≡ or_else (find_in_list k ls) (if equal h k then some n else none)
unfolding find_in_list append_last
find_in_list-append_last k h n [] ne = absurd (ne refl)
find_in_list-append_last k h n (l ∷ []) ne = ground (arith, find_in_section-append k h n l)
find_in_list-append_last k h n (l ∷ m ∷ ls) ne =
    ground (arith, find_in_list-append_last k h n (m ∷ ls) (λ e. cc))

-- After a header is recorded, `FindHeader` answers as before wherever it answered, and finds the new
-- header at its line; it finds no other.
pub find_header-add_header :
    (k h : Text) (n : ℕ) (s : IncludeState)
    → s.include_list ≢ []
    → find_header k (add_header h n s)
      ≡ or_else (find_header k s) (if equal h k then some n else none)
unfolding find_header add_header
find_header-add_header k h n s ne = find_in_list-append_last k h n s.include_list ne

find_in_list-push :
    (k : Text) (ls : List (List (Text × ℕ))) → find_in_list k (ls ++ [] ∷ []) ≡ find_in_list k ls
unfolding find_in_list find_in_section
find_in_list-push k [] = refl
find_in_list-push k (l ∷ ls) = ground (arith, find_in_list-push k ls)

append_last-push :
    (x : Text × ℕ) (l : List (Text × ℕ)) (ls : List (List (Text × ℕ)))
    → append_last x (ls ++ l ∷ []) ≡ ls ++ (l ++ x ∷ []) ∷ []
unfolding append_last
append_last-push x l [] = refl
append_last-push x l (a ∷ []) = refl
append_last-push x l (a ∷ b ∷ ls) = ap (λ t. a ∷ t) (append_last-push x l (b ∷ ls))

clear_last-push :
    (l : List (Text × ℕ)) (ls : List (List (Text × ℕ))) → clear_last (ls ++ l ∷ []) ≡ ls ++ [] ∷ []
unfolding clear_last
clear_last-push l [] = refl
clear_last-push l (a ∷ []) = refl
clear_last-push l (a ∷ b ∷ ls) = ap (λ t. a ∷ t) (clear_last-push l (b ∷ ls))

-- headers, with their lines, one after another
abbrev pub add_all : List (Text × ℕ) → IncludeState → IncludeState
add_all [] s = s
add_all ((h, n) ∷ hs) s = add_all hs (add_header h n s)

-- they all come into the list that was opened last
add_all-push :
    (hs l : List (Text × ℕ)) (ls : List (List (Text × ℕ))) (s : IncludeState)
    → s.include_list ≡ ls ++ l ∷ []
    → (m : List (Text × ℕ)) × ((add_all hs s).include_list ≡ ls ++ m ∷ [])
add_all-push [] l ls s e = (l, e)
add_all-push ((h, n) ∷ hs) l ls s e =
    add_all-push hs (l ++ (h, n) ∷ []) ls (add_header h n s)
      (unfold add_header in ap (append_last (h, n)) e ∙ append_last-push (h, n) l ls)

else-member :
    (directive : Text)
    → member directive (text "else" ∷ text "elif" ∷ []) ≡ true
    → member directive (text "if" ∷ text "ifdef" ∷ text "ifndef" ∷ []) ≡ false
unfolding text equal
else-member directive h = elim (Bool-cases (equal directive (text "else"))) [
  | inl t ↦ rw ((equal_iff directive (text "else")).0 t) refl
  | inr n ↦
      let elif : equal directive (text "elif") ≡ true = ground (arith, n, h) in
      rw ((equal_iff directive (text "elif")).0 elif) refl
]

-- At the #else or #elif that ends a branch without conditionals of its own, `FindHeader` answers as it did
-- in front of the #if that opened the branch, whatever the branch has included.
pub find_header-branch :
    (opening ending k : Text) (hs : List (Text × ℕ)) (s : IncludeState)
    → member opening (text "if" ∷ text "ifdef" ∷ text "ifndef" ∷ []) ≡ true
    → member ending (text "else" ∷ text "elif" ∷ []) ≡ true
    → find_header k (reset_section ending (add_all hs (reset_section opening s))) ≡ find_header k s
unfolding find_header reset_section reset_list
find_header-branch opening ending k hs s ho he =
    let opened : (reset_section opening s).include_list ≡ s.include_list ++ [] ∷ [] =
      ground (arith, ho) in
    let (m, e) = add_all-push hs [] s.include_list (reset_section opening s) opened in
    let other = else-member ending he in
    rw (other, he)
      (ap (λ ls. find_in_list k (clear_last ls)) e
        ∙ ap (find_in_list k) (clear_last-push m s.include_list)
        ∙ find_in_list-push k s.include_list)
