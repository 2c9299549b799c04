-- ===== src/Tests/Cleansing.antt =====
-- Comments.
use epiphany_bsp.Base.{ℕ, ◌≡◌, refl, none, some, Option, List, [], ◌∷◌}
use epiphany_bsp.Base.Text.{Text, text}
use epiphany_bsp.Base.{length, get_elem?}
use epiphany_bsp.Lint.Cleanse.{cleansed_lines}
use epiphany_bsp.Lint.Report.{error, initial}
use epiphany_bsp.Lint.Cleanse.MultiLine.{remove_multi_line_comments}
use epiphany_bsp.Lint.Cleanse.MultiLine.Rounds.{Cleaned, reported}
use epiphany_bsp.Lint.Cleanse.MultiLine.Laws.{remove_multi_line_comments-Cleaned}
use epiphany_bsp.Lint.Cleanse.Comments.{cleanse_comments}
use epiphany_bsp.Lint.Cleanse.Strings.{collapse_strings}
use epiphany_bsp.Lint.Cleanse.RawStrings.{cleanse_raw_strings}

abbrev file : List Text
file = text "a;" ∷ text " /* b" ∷ text "c" ∷ text "d */" ∷ text "e;" ∷ text "/* f" ∷ []

remove_multi_line_comments-Cleaned_example :
    (out : List Text) × (o : Option ℕ) × Cleaned 0 file out o
    × (remove_multi_line_comments (text "x.h") file error initial
        ≡ (out, reported (text "x.h") error o initial))
remove_multi_line_comments-Cleaned_example =
    remove_multi_line_comments-Cleaned (text "x.h") file error initial

file_test :
    (remove_multi_line_comments (text "x.h") file error initial).0
    ≡ text "a;" ∷ text "/**/" ∷ text "/**/" ∷ text "/**/" ∷ text "e;" ∷ text "/* f" ∷ []
unfolding remove_multi_line_comments
    epiphany_bsp.Lint.Cleanse.MultiLine.find_next_multi_line_comment_start
    epiphany_bsp.Base.Text.starts_with text epiphany_bsp.Base.Text.unicode_strip
    epiphany_bsp.Base.Text.find epiphany_bsp.Lint.Cleanse.MultiLine.find_next_multi_line_comment_end
    epiphany_bsp.Base.Text.ends_with
    epiphany_bsp.Lint.Cleanse.MultiLine.remove_multi_line_comments_from_range
    epiphany_bsp.Lint.Cleanse.MultiLine.dummy_comment
file_test = refl

comment_test : cleanse_comments (text "f(); /* g */ h(); // i") ≡ text "f(); h();"
unfolding text cleanse_comments epiphany_bsp.Regex.replace_all epiphany_bsp.Base.Text.find
    epiphany_bsp.Base.Text.count epiphany_bsp.Base.Text.replace
    epiphany_bsp.Base.Text.unicode_rstrip
comment_test = refl

string_test : collapse_strings (text "f(\"a\\\"b\", 'c');") ≡ text "f(\"\", '');"
unfolding text collapse_strings epiphany_bsp.Regex.match
    epiphany_bsp.Lint.Cleanse.Strings.include_pattern
    epiphany_bsp.Lint.Cleanse.Strings.collapse_step epiphany_bsp.Lint.Cleanse.Strings.first_quote
    epiphany_bsp.Regex.replace_all epiphany_bsp.Lint.Cleanse.Strings.cleanse_line_escapes
    epiphany_bsp.Base.Text.equal epiphany_bsp.Base.Text.find epiphany_bsp.Regex.search_in
    epiphany_bsp.Lint.Cleanse.Strings.number_before
string_test = refl

raw_test :
    cleanse_raw_strings (text "s = R\"x(a" ∷ text "  b)x\";" ∷ [])
    ≡ text "s = \"\"" ∷ text "  \"\";" ∷ []
unfolding cleanse_raw_strings text epiphany_bsp.Lint.Cleanse.RawStrings.cleanse_raw_line
    epiphany_bsp.Lint.Cleanse.RawStrings.open_raw epiphany_bsp.Regex.match
    epiphany_bsp.Lint.Cleanse.RawStrings.raw_string epiphany_bsp.Base.Text.find
    epiphany_bsp.Lint.Cleanse.RawStrings.quotes epiphany_bsp.Lint.Cleanse.RawStrings.leading
    epiphany_bsp.Lint.Cleanse.RawStrings.leading_space
raw_test = refl
