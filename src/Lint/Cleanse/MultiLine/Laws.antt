-- ===== src/Lint/Cleanse/MultiLine/Laws.antt =====
-- What the clearing of comments over several lines leaves.
use mathlib.Core.Path.{subst, subst⁻¹}
use mathlib.Core.List.{append_assoc}
use epiphany_bsp.Base.{
  ℕ, zero, suc, ◌+◌, ◌-◌, ◌≤◌, ◌≡◌, refl, sym, ap, ◌∙◌, ◌⊎◌, inl, inr, true, Option, none, some,
  List, [], ◌∷◌, ◌++◌, length, replicate, arith, All-append, length-append,
}
use epiphany_bsp.Base.Text.{Text}
use epiphany_bsp.Lint.Report.{Globals, Handler}
use epiphany_bsp.Lint.Cleanse.MultiLine.{
  is_comment_start, is_comment_end, first_at, dummy_comment, clear_lines, remove_from,
  remove_multi_line_comments, remove_multi_line_comments_from_range,
}
use epiphany_bsp.Lint.Cleanse.MultiLine.Lines.{
  No, First, length-replicate, clear_lines-append, First-cases, first_at-parts,
}
use epiphany_bsp.Lint.Cleanse.MultiLine.Rounds.{
  Cleaned, code, comment, unfinished, reported, start-at, end-at, round-code, round-unfinished,
  round-comment,
}

module _ (filename : Text) (report : Handler) (g : Globals) where
  -- what the loop makes of the lines from `i` on, behind those that are read
  abbrev Result : ℕ → ℕ → List Text → List Text → Type 0
  Result f i read lines =
      (out : List Text) × (o : Option ℕ) × Cleaned i lines out o
      × (remove_from f filename report i (read ++ lines) g
          ≡ (read ++ out, reported filename report o g))

  all_code :
      (f : ℕ) (read pre : List Text)
      → No is_comment_start pre
      → first_at is_comment_start (length read) pre ≡ length read + length pre
      → Result (suc f) (length read) read pre
  all_code f read pre no_start at = (
    pre,
    none,
    code no_start,
    round-code filename report g f (length read) (read ++ pre)
        (omega (arith, start-at read pre _ at, length-append read pre)),
  )

  not_ended :
      (f : ℕ) (read pre rest : List Text)
      → No is_comment_start pre
      → First is_comment_start rest
      → first_at is_comment_start (length read) (pre ++ rest) ≡ length read + length pre
      → No is_comment_end rest
      → first_at is_comment_end (length read + length pre) rest
        ≡ length read + length pre + length rest
      → Result (suc f) (length read) read (pre ++ rest)
  not_ended f read pre rest no_start first at no_end at_end =
      let (l, more, e, _) = First-cases is_comment_start rest first in
      let size = length-append read (pre ++ rest) in
      let size2 = length-append pre rest in
      let size3 = ap length e in
      (
        pre ++ rest,
        some (length read + length pre),
        unfinished pre rest refl no_start first no_end,
        round-unfinished filename report g f (length read) _ (read ++ (pre ++ rest))
            (omega (arith, size, size2, size3)) (start-at read (pre ++ rest) _ at)
            (omega (arith, size, size2, size3))
            (omega (arith, end-at read pre rest _ at_end, size, size2)),
      )

  -- the lines of a comment are cleared
  range-append :
      (read pre body : List Text) (last : Text) (rest : List Text)
      → remove_multi_line_comments_from_range
          (read ++ (pre ++ (body ++ last ∷ rest)))
          (length read + length pre)
          (length read + length pre + length body + 1)
        ≡ ((read ++ pre) ++ replicate (suc (length body)) dummy_comment) ++ rest
  unfolding remove_multi_line_comments_from_range
  range-append read pre body last rest =
      let block = body ++ last ∷ [] in
      let size = length-append body (last ∷ []) in
      ap (λ n. clear_lines n (length read + length pre) (read ++ (pre ++ (body ++ last ∷ rest))))
        {x = length read + length pre + length body + 1 - (length read + length pre)}
        {y = length block} (omega (arith, size))
      ∙ ap (clear_lines (length block) (length read + length pre)) (
          sym (append_assoc read pre (body ++ last ∷ rest))
          ∙ ap (λ ls. (read ++ pre) ++ ls) (sym (append_assoc body (last ∷ []) rest)))
      ∙ clear_lines-append (length read + length pre) (read ++ pre) block rest
          (omega (arith, length-append read pre))
      ∙ ap (λ n. (read ++ pre) ++ (replicate n dummy_comment ++ rest)) {y = suc (length body)}
          (omega (arith, size))
      ∙ sym (append_assoc (read ++ pre) (replicate (suc (length body)) dummy_comment) rest)

  whole-size :
      (read pre body : List Text) (last : Text) (rest : List Text)
      → length (read ++ (pre ++ (body ++ last ∷ rest)))
        ≡ length read + (length pre + (length body + suc (length rest)))
  whole-size read pre body last rest = omega (
    arith,
    length-append read (pre ++ (body ++ last ∷ rest)),
    length-append pre (body ++ last ∷ rest),
    length-append body (last ∷ rest),
  )

  whole_comment :
      (f : ℕ) (read pre body : List Text) (last : Text) (rest : List Text)
      → No is_comment_start pre
      → First is_comment_start (body ++ last ∷ rest)
      → first_at is_comment_start (length read) (pre ++ (body ++ last ∷ rest))
        ≡ length read + length pre
      → No is_comment_end body
      → is_comment_end last ≡ true
      → first_at is_comment_end (length read + length pre) (body ++ last ∷ rest)
        ≡ length read + length pre + length body
      → Result f
          (length read + length pre + suc (length body))
          ((read ++ pre) ++ replicate (suc (length body)) dummy_comment)
          rest
      → Result (suc f) (length read) read (pre ++ (body ++ last ∷ rest))
  whole_comment f read pre body last rest no_start first at no_end is_end at_end (out, o, c, e) =
      let size = whole-size read pre body last rest in
      (
        _,
        o,
        comment pre body last rest refl no_start first no_end is_end c,
        round-comment filename report g f (length read) _ _ (read ++ (pre ++ (body ++ last ∷ rest)))
              (omega (arith, size)) (start-at read _ _ at) (omega (arith, size))
              (end-at read pre _ _ at_end) (omega (arith, size))
            ∙ ap
                (λ j.
                  remove_from f filename report j
                    (remove_multi_line_comments_from_range (read ++ (pre ++ (body ++ last ∷ rest)))
                      (length read + length pre) (length read + length pre + length body + 1))
                    g)
                (omega arith)
            ∙ ap
                (λ ls.
                  remove_from f filename report (length read + length pre + suc (length body)) ls g)
                (range-append read pre body last rest)
            ∙ e
            ∙ ap (λ ls. (ls, reported filename report o g))
                (append_assoc (read ++ pre) (replicate (suc (length body)) dummy_comment) out
                  ∙ append_assoc read pre _),
      )

  module _ (f : ℕ)
      (later : (i : ℕ) (read lines : List Text)
        → i ≡ length read
        → length lines ≤ f
        → Result f i read lines)
      (read pre : List Text) (no_start : No is_comment_start pre) where
    at_start :
        (rest : List Text)
        → length (pre ++ rest) ≤ suc f
        → First is_comment_start rest
        → first_at is_comment_start (length read) (pre ++ rest) ≡ length read + length pre
        → Result (suc f) (length read) read (pre ++ rest)
    at_start rest h first at =
        let (body, tail, e2, no_end, at2, cases) =
          first_at-parts is_comment_end (length read + length pre) rest in
        elim cases [
          | inl et ↦
              not_ended f read pre rest no_start first at
                (subst⁻¹ (No is_comment_end) e2
                  (All-append _ body tail no_end (subst⁻¹ (No is_comment_end) et tt)))
                (omega (arith, at2, ap length e2, length-append body tail, ap length et))
          | inr fe ↦
              let (last, rest2, e3, is_end) = First-cases is_comment_end tail fe in
              let e4 = e2 ∙ ap (λ t. body ++ t) e3 in
              subst⁻¹ (λ r. Result (suc f) (length read) read (pre ++ r)) e4
                (whole_comment f read pre body last rest2 no_start
                  (subst (First is_comment_start) e4 first)
                  (subst
                    (λ r.
                      first_at is_comment_start (length read) (pre ++ r) ≡ length read + length pre)
                    e4 at)
                  no_end is_end
                  (subst
                    (λ r.
                      first_at is_comment_end (length read + length pre) r
                      ≡ length read + length pre + length body)
                    e4 at2)
                  (later _ _ rest2
                    (omega (
                      arith,
                      length-append (read ++ pre) (replicate (suc (length body)) dummy_comment),
                      length-append read pre,
                      length-replicate (length body) dummy_comment,
                    ))
                    (omega (
                      arith,
                      h,
                      length-append pre rest,
                      ap length e4,
                      length-append body (last ∷ rest2),
                    ))))
        ]

    at_rest :
        (rest : List Text)
        → length (pre ++ rest) ≤ suc f
        → (rest ≡ []) ⊎ First is_comment_start rest
        → first_at is_comment_start (length read) (pre ++ rest) ≡ length read + length pre
        → Result (suc f) (length read) read (pre ++ rest)
    at_rest rest h (inl er) at =
        all_code f read (pre ++ rest)
          (All-append _ pre rest no_start (subst⁻¹ (No is_comment_start) er tt))
          (omega (arith, at, length-append pre rest, ap length er))
    at_rest rest h (inr first) at = at_start rest h first at

  remove_from-Cleaned :
      (f i : ℕ) (read lines : List Text)
      → i ≡ length read
      → length lines ≤ f
      → Result f i read lines
  unfolding remove_from
  remove_from-Cleaned zero i read [] e h = ([], none, code tt, refl)
  remove_from-Cleaned zero i read (l ∷ lines) e h = ground arith
  remove_from-Cleaned (suc f) i read lines e h =
      let (pre, rest, e1, no_start, at, tail) =
        first_at-parts is_comment_start (length read) lines in
      subst⁻¹ (λ j. Result (suc f) j read lines) e
        (subst⁻¹ (λ ls. Result (suc f) (length read) read ls) e1
          (at_rest f (remove_from-Cleaned f) read pre no_start rest
            (subst (λ ls. length ls ≤ suc f) e1 h) tail
            (subst (λ ls. first_at is_comment_start (length read) ls ≡ length read + length pre) e1
              at)))

-- On the lines of any file, the removal of comments over several lines ends and leaves this: the
-- lines from the first one that starts a comment, and does not end it, to the first one from there
-- that ends it become dummy comments; so on behind it; where no line ends a comment, the lines from
-- its start on are left as they are and one error is reported, at the
-- line behind the comment's index; all other
-- lines stay, each at its place.
pub remove_multi_line_comments-Cleaned :
    (filename : Text) (lines : List Text) (report : Handler) (g : Globals)
    → (out : List Text) × (o : Option ℕ) × Cleaned 0 lines out o
      × (remove_multi_line_comments filename lines report g ≡ (out, reported filename report o g))
unfolding remove_multi_line_comments
remove_multi_line_comments-Cleaned filename lines report g =
    remove_from-Cleaned filename report g (length lines) 0 [] lines refl (omega arith)
