-- ===== src/Lint/Cleanse/MultiLine/Rounds.antt =====
-- One round of the loop of `RemoveMultiLineComments`, and what all rounds should leave.
use mathlib.Core.List.{append_assoc}
use epiphany_bsp.Base.{
  ℕ, suc, ◌+◌, ◌≤◌, ◌<◌, ◌≡◌, sym, ap, ◌∙◌, true, Option, none, some, List, ◌∷◌, ◌++◌, length, drop,
  replicate, arith, length-append,
}
use epiphany_bsp.Base.Text.{Text, text}
use epiphany_bsp.Lint.Report.{Globals, Handler}
use epiphany_bsp.Lint.Cleanse.MultiLine.{
  is_comment_start, is_comment_end, first_at, find_next_multi_line_comment_start,
  find_next_multi_line_comment_end, dummy_comment, remove_from,
  remove_multi_line_comments_from_range,
}
use epiphany_bsp.Lint.Cleanse.MultiLine.Lines.{No, First, drop-append}

-- What becomes of the lines from `i` on: the outcome has the lines, and the first line of a comment
-- that no line ends, if there is one.
pub data Cleaned : ℕ → List Text → List Text → Option ℕ → Type 0 where
  -- no line starts a comment
  code : {i : ℕ} {lines : List Text} → No is_comment_start lines → Cleaned i lines lines none
  -- the lines of a comment, up to the first one that ends it, become dummy comments
  comment :
      {i : ℕ} {lines out : List Text} {o : Option ℕ} (pre body : List Text) (last : Text)
      (rest : List Text)
      → lines ≡ pre ++ (body ++ last ∷ rest)
      → No is_comment_start pre
      → First is_comment_start (body ++ last ∷ rest)
      → No is_comment_end body
      → is_comment_end last ≡ true
      → Cleaned (i + length pre + suc (length body)) rest out o
      → Cleaned i lines (pre ++ (replicate (suc (length body)) dummy_comment ++ out)) o
  -- a comment that no line ends is left as it is
  unfinished :
      {i : ℕ} {lines : List Text} (pre rest : List Text)
      → lines ≡ pre ++ rest
      → No is_comment_start pre
      → First is_comment_start rest
      → No is_comment_end rest
      → Cleaned i lines lines (some (i + length pre))

abbrev pub reported : Text → Handler → Option ℕ → Globals → Globals
reported filename report none g = g
reported filename report (some begin) g =
    report filename (begin + 1) (text "readability/multiline_comment") 5
      (text "Could not find end of multi-line comment") g

-- where the searches stop on the lines behind those that are read
pub start-at :
    (read lines : List Text) (i : ℕ)
    → first_at is_comment_start (length read) lines ≡ i
    → find_next_multi_line_comment_start (read ++ lines) (length read) ≡ i
unfolding find_next_multi_line_comment_start
start-at read lines i e = ap (first_at is_comment_start (length read)) (drop-append read lines) ∙ e

pub end-at :
    (read pre rest : List Text) (i : ℕ)
    → first_at is_comment_end (length read + length pre) rest ≡ i
    → find_next_multi_line_comment_end (read ++ (pre ++ rest)) (length read + length pre) ≡ i
unfolding find_next_multi_line_comment_end
end-at read pre rest i e =
    ap (first_at is_comment_end (length read + length pre)) (
      ap (λ n. drop n (read ++ (pre ++ rest))) (sym (length-append read pre))
      ∙ ap (drop (length (read ++ pre))) (sym (append_assoc read pre rest))
      ∙ drop-append (read ++ pre) rest)
    ∙ e

module _ (filename : Text) (report : Handler) (g : Globals) where
  -- one round of the loop, in its three cases
  pub round-code :
      (f i : ℕ) (lines : List Text)
      → length lines ≤ find_next_multi_line_comment_start lines i
      → remove_from (suc f) filename report i lines g ≡ (lines, g)
  unfolding remove_from
  round-code f i lines h = ground arith

  pub round-unfinished :
      (f i b : ℕ) (lines : List Text)
      → i < length lines
      → find_next_multi_line_comment_start lines i ≡ b
      → b < length lines
      → length lines ≤ find_next_multi_line_comment_end lines b
      → remove_from (suc f) filename report i lines g ≡ (lines, reported filename report (some b) g)
  unfolding remove_from
  round-unfinished f i b lines hi e hb he = rw e (ground arith)

  pub round-comment :
      (f i b e : ℕ) (lines : List Text)
      → i < length lines
      → find_next_multi_line_comment_start lines i ≡ b
      → b < length lines
      → find_next_multi_line_comment_end lines b ≡ e
      → e < length lines
      → remove_from (suc f) filename report i lines g
        ≡ remove_from f filename report
            (e + 1)
            (remove_multi_line_comments_from_range lines b (e + 1))
            g
  unfolding remove_from
  round-comment f i b e lines hi eb hb ee he = rw (eb, ee) (ground arith)
