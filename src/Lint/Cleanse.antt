-- ===== src/Lint/Cleanse.antt =====
-- The preprocessing of lines in scripts/cpplint.py: raw strings, comments and string literals are
-- taken out before the checks look at a line.
pub mod RawStrings
pub mod MultiLine
pub mod Comments
pub mod Strings
use epiphany_bsp.Base.{ℕ, List, [], ◌∷◌, length, map}
use epiphany_bsp.Base.Text.{Text}
use RawStrings.{cleanse_raw_strings}
use Comments.{cleanse_comments}
use Strings.{collapse_strings}

-- `CleansedLines`: the lines without strings and comments, without comments, as they are, and
-- without raw strings.
pub record CleansedLines : Type 0 where
  pub elided : List Text
  pub lines : List Text
  pub raw_lines : List Text
  pub num_lines : ℕ
  pub lines_without_raw_strings : List Text

unfoldable pub cleansed_lines : List Text → CleansedLines
cleansed_lines lines =
    let without = cleanse_raw_strings lines in
    record {
      elided = map (λ line. cleanse_comments (collapse_strings line)) without;
      lines = map cleanse_comments without;
      raw_lines = lines;
      num_lines = length lines;
      lines_without_raw_strings = without;
    }
