-- ===== src/Tests/Patterns.antt =====
-- Patterns, and what is made of their texts.
use epiphany_bsp.Base.{refl, ◌≡◌, true, false, Option, none, some, Bool, [], ◌∷◌}
use epiphany_bsp.Base.Text.{text}
use epiphany_bsp.Regex.{search_in, match, matches, occurs}
use epiphany_bsp.Regex.Compile.{re}
use epiphany_bsp.Lint.Style.CheckMacros.{split_comparison}

words_and_groups : occurs (re "\\b(if|for)\\s*\\(") (text "  if (x)") ≡ true
unfolding search_in re text
words_and_groups = refl

repetitions : matches (re "a{2,3}[^b-d]+?$") (text "aaxy") ≡ true
unfolding match re text
repetitions = refl

same_group : occurs (re "\\b([a-z]*_)\\(\\1\\)") (text "x_(y_)") ≡ false
unfolding search_in re text
same_group = refl

look_ahead : occurs (re "\\blong(?! +double)\\b") (text "long double") ≡ false
unfolding search_in re text
look_ahead = refl

comparison_parts : split_comparison 6 [] (text "x == 5") ≡ some (text "x ", (text "==", text " 5"))
unfolding split_comparison match re text epiphany_bsp.Base.Text.equal
comparison_parts = refl
