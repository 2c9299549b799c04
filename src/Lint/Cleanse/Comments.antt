-- ===== src/Lint/Cleanse/Comments.antt =====
-- Comments within a line: `IsCppString` and `CleanseComments` of scripts/cpplint.py.
use epiphany_bsp.Base.{◌+◌, ◌%◌, Bool, not, none, some, [], take, ◌==◌, if◌then◌else◌}
use epiphany_bsp.Base.Text.{Text, text, find, replace, count, unicode_rstrip}
use epiphany_bsp.Regex.{
  Regex, ◌⊙◌, ◌⊕◌, lit, one, none_of, star, plus, spaces, space, line_end, ahead, ahead_not,
  non_word, replace_all,
}

-- The parity of the difference is that of the sum, where the difference is negative too.
unfoldable pub is_cpp_string : Text → Bool
is_cpp_string line =
    let l = replace line (text "\\\\") (text "XX") in
    (count l (text "\"") + count l (text "\\\"") + count l (text "'\"'")) % 2 == 1

-- r'/\*(?:[^*]|\*(?!/))*\*/'
unfoldable pub c_comment : Regex
c_comment = lit "/*" ⊙ star (none_of "*" ⊕ (one b'*' ⊙ ahead_not (one b'/'))) ⊙ lit "*/"

-- r'(\s*C\s*$|C\s+|\s+C(?=\W)|C)' for the pattern C above
unfoldable pub cleanse_line_c_comments : Regex
unfolding c_comment
cleanse_line_c_comments =
    (spaces ⊙ c_comment ⊙ spaces ⊙ line_end)
    ⊕ (c_comment ⊙ plus space)
    ⊕ (plus space ⊙ c_comment ⊙ ahead non_word)
    ⊕ c_comment

-- the line up to a `//` that is not in a string
unfoldable pub drop_line_comment : Text → Text
unfolding is_cpp_string
drop_line_comment line = elim (find line (text "//")) [
  | none ↦ line
  | some commentpos ↦
      if not (is_cpp_string (take commentpos line))
      then unicode_rstrip (take commentpos line)
      else line
]

unfoldable pub cleanse_comments : Text → Text
unfolding drop_line_comment cleanse_line_c_comments
cleanse_comments line = replace_all cleanse_line_c_comments [] (drop_line_comment line)
