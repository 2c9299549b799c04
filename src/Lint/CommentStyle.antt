-- ===== src/Lint/CommentStyle.antt =====
-- `CheckComment` of scripts/cpplint.py: the spaces around a `//` comment, and TODO comments.
use epiphany_bsp.Base.{
  ℕ, ◌+◌, ◌-◌, ◌%◌, Bool, not, ◌&&◌, ◌||◌, none, some, [], ◌∷◌, ◌++◌, length, take, drop, get_or,
  ltb, leb, ◌==◌, if◌then◌else◌,
}
use epiphany_bsp.Base.Text.{Text, text, equal, find, count, is_space}
use epiphany_bsp.Regex.{
  Regex, Found, ◌⊙◌, ◌⊕◌, lit, one, none_of, any_of, any_char, star, plus, opt, group, space,
  spaces, word, line_start, line_end, match, matches, group_of, group_text,
}
use epiphany_bsp.Lint.Report.{Globals, Handler}

-- r'^//(\s*)TODO(\(.+?\))?:?(\s|$)?': what follows the user's name can be empty, so the name is the
-- shortest that there is.
unfoldable pub todo_pattern : Regex
todo_pattern =
    line_start
    ⊙ lit "//"
    ⊙ group 1 spaces
    ⊙ lit "TODO"
    ⊙ opt (group 2 (one b'(' ⊙ any_char ⊙ star (none_of ")\n") ⊙ one b')'))
    ⊙ opt (one b':')
    ⊙ opt (group 3 (space ⊕ line_end))

-- an even number of quotes stands before the comment; the parity of a difference is that of the sum
unfoldable pub not_in_quotes : Text → ℕ → Bool
not_in_quotes line commentpos =
    let front = take commentpos line in
    (count front (text "\"") + count front (text "\\\"")) % 2 == 0

-- r'^.*{ *//'
unfoldable pub scope_comment : Regex
scope_comment = line_start ⊙ star any_char ⊙ one b'{' ⊙ star (one b' ') ⊙ lit "//"

-- `commentpos >= n and line[commentpos - n] not in string.whitespace`
abbrev touches : ℕ → ℕ → Text → Bool
touches n commentpos line = leb n commentpos && not (is_space (get_or line (commentpos - n) 0))

unfoldable pub lacks_spaces : Text → ℕ → ℕ → Bool
unfolding scope_comment
lacks_spaces line commentpos next_line_start =
    not (matches scope_comment line && next_line_start == commentpos)
    && (touches 1 commentpos line || touches 2 commentpos line)

unfoldable pub check_todo : Found → Text → ℕ → Handler → Globals → Globals
check_todo m filename linenum error g =
    let g1 =
      if ltb 1 (length (group_text 1 m))
      then error filename linenum (text "whitespace/todo") 2 (text "Too many spaces before TODO") g
      else g in
    let g2 : Globals = elim (group_of 2 m.groups) [
      | none ↦
          error filename linenum (text "readability/todo") 2
            (text "Missing username in TODO; it should look like "
              ++ text "\"// TODO(my_username): Stuff.\"")
            g1
      | some username ↦ g1
    ] in
    let wrong =
      error filename linenum (text "whitespace/todo") 2
        (text "TODO(my_username) should be followed by a space") g2 in
    elim (group_of 3 m.groups) [
      | none ↦ wrong
      | some middle ↦ if equal middle (text " ") || equal middle [] then g2 else wrong
    ]

-- r'//[^ ]*\w' and r'(///|//\!)(\s+|$)'
unfoldable pub lacks_first_space : Text → Bool
lacks_first_space comment =
    matches (lit "//" ⊙ star (none_of " ") ⊙ word) comment
    && not (matches (any_of ("///" ∷ "//!" ∷ []) ⊙ (plus space ⊕ line_end)) comment)

unfoldable pub check_comment_at : ℕ → Text → Text → ℕ → ℕ → Handler → Globals → Globals
unfolding lacks_spaces todo_pattern lacks_first_space
check_comment_at commentpos line filename linenum next_line_start error g =
    let comment = drop commentpos line in
    let g1 =
      if lacks_spaces line commentpos next_line_start
      then error filename linenum (text "whitespace/comments") 2
          (text "At least two spaces is best between code and comments") g
      else g in
    let g2 : Globals = elim (match todo_pattern comment) [
      | none ↦ g1
      | some m ↦ check_todo m filename linenum error g1
    ] in
    if lacks_first_space comment
    then error filename linenum (text "whitespace/comments") 4
        (text "Should have a space between // and comment") g2
    else g2

unfoldable pub check_comment : Text → Text → ℕ → ℕ → Handler → Globals → Globals
unfolding not_in_quotes
check_comment line filename linenum next_line_start error g = elim (find line (text "//")) [
  | none ↦ g
  | some commentpos ↦
      if not_in_quotes line commentpos
      then check_comment_at commentpos line filename linenum next_line_start error g
      else g
]
