-- ===== src/Lint/Cleanse/MultiLine.antt =====
-- Comments that go over several lines: `FindNextMultiLineCommentStart`,
-- `FindNextMultiLineCommentEnd`, `RemoveMultiLineCommentsFromRange` and `RemoveMultiLineComments` of
-- scripts/cpplint.py. The list that the source changes in place is returned.
pub mod Lines
pub mod Rounds
pub mod Laws
use epiphany_bsp.Base.{
  ℕ, zero, suc, ◌+◌, ◌-◌, Bool, not, ◌&&◌, List, [], ◌∷◌, length, drop, set, ltb, if◌then◌else◌,
}
use epiphany_bsp.Base.Text.{Text, text, starts_with, ends_with, contains, unicode_strip}
use epiphany_bsp.Lint.Report.{Globals, Handler}

-- a line that begins a comment and does not end it
unfoldable pub is_comment_start : Text → Bool
is_comment_start line =
    starts_with (unicode_strip line) (text "/*")
    && not (contains (drop 2 (unicode_strip line)) (text "*/"))

unfoldable pub is_comment_end : Text → Bool
is_comment_end line = ends_with (unicode_strip line) (text "*/")

-- `while lineix < len(lines): … lineix += 1`, over the lines from `lineix` on
unfoldable pub first_at : (Text → Bool) → ℕ → List Text → ℕ
first_at p i [] = i
first_at p i (l ∷ ls) = if p l then i else first_at p (i + 1) ls

unfoldable pub find_next_multi_line_comment_start : List Text → ℕ → ℕ
unfolding is_comment_start first_at
find_next_multi_line_comment_start lines lineix =
    first_at is_comment_start lineix (drop lineix lines)

unfoldable pub find_next_multi_line_comment_end : List Text → ℕ → ℕ
unfolding is_comment_end first_at
find_next_multi_line_comment_end lines lineix = first_at is_comment_end lineix (drop lineix lines)

unfoldable pub dummy_comment : Text
dummy_comment = text "/**/"

-- `for i in range(begin, begin + n)`
unfoldable pub clear_lines : ℕ → ℕ → List Text → List Text
clear_lines zero i lines = lines
clear_lines (suc n) i lines = clear_lines n (i + 1) (set lines i dummy_comment)

unfoldable pub remove_multi_line_comments_from_range : List Text → ℕ → ℕ → List Text
unfolding clear_lines
remove_multi_line_comments_from_range lines begin end = clear_lines (end - begin) begin lines

-- The loop of `RemoveMultiLineComments`, on fuel.
unfoldable pub remove_from : ℕ → Text → Handler → ℕ → List Text → Globals → List Text × Globals
remove_from zero filename report lineix lines g = (lines, g)
remove_from (suc f) filename report lineix lines g =
    let begin = find_next_multi_line_comment_start lines lineix in
    let end = find_next_multi_line_comment_end lines begin in
    let missing =
      report filename (begin + 1) (text "readability/multiline_comment") 5
        (text "Could not find end of multi-line comment") g in
    let rest =
      remove_from f filename report (end + 1)
        (remove_multi_line_comments_from_range lines begin (end + 1)) g in
    if not (ltb lineix (length lines))
    then (lines, g)
    else if not (ltb begin (length lines))
    then (lines, g)
    else if not (ltb end (length lines))
    then (lines, missing)
    else rest

-- With one round for each line the fuel is enough.
unfoldable pub remove_multi_line_comments :
    Text → List Text → Handler → Globals → List Text × Globals
unfolding remove_from
remove_multi_line_comments filename lines report g =
    remove_from (length lines) filename report 0 lines g
