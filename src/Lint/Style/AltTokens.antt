-- ===== src/Lint/Style/AltTokens.antt =====
-- `_ALT_TOKEN_REPLACEMENT` and `CheckAltTokens` of scripts/cpplint.py.
use epiphany_bsp.Base.{List, [], if◌then◌else◌, length, not, ℕ, ◌&&◌, ◌++◌, ◌||◌, ◌∷◌}
use epiphany_bsp.Base.Text.{Text, contains, equal, text}
use epiphany_bsp.Lint.Cleanse.{CleansedLines}
use epiphany_bsp.Lint.Report.{Handler}
use epiphany_bsp.Lint.Steps.{Action, each, find_all, line_at, when}
use epiphany_bsp.Regex.{Regex, group_text, matches}
use epiphany_bsp.Regex.Compile.{re}

unfoldable pub alt_token_replacement : List (Text × Text)
alt_token_replacement =
    ((text "and"), (text "&&"))
    ∷ ((text "bitor"), (text "|"))
    ∷ ((text "or"), (text "||"))
    ∷ ((text "xor"), (text "^"))
    ∷ ((text "compl"), (text "~"))
    ∷ ((text "bitand"), (text "&"))
    ∷ ((text "and_eq"), (text "&="))
    ∷ ((text "or_eq"), (text "|="))
    ∷ ((text "xor_eq"), (text "^="))
    ∷ ((text "not"), (text "!"))
    ∷ ((text "not_eq"), (text "!="))
    ∷ []

unfoldable pub lookup_text : List (Text × Text) → Text → Text
lookup_text [] s = []
lookup_text ((t, r) ∷ rows) s = let others = lookup_text rows s in if equal s t then r else others

-- The keys in the order of the table. What follows a key is no word character, so that the order does
-- not matter.
unfoldable pub alt_token_pattern : Regex
alt_token_pattern =
    (re "[ =()](and|bitor|or|xor|compl|bitand|and_eq|or_eq|xor_eq|not|not_eq)(?=[ (]|$)")

unfoldable pub check_alt_tokens : Text → CleansedLines → ℕ → Handler → Action
check_alt_tokens filename clean_lines linenum error =
    let line = line_at clean_lines.elided linenum in
    when
      (not (matches (re "^\\s*#") line)
        && not (contains line (text "/*") || contains line (text "*/")))
      (each
        (λ m. error filename linenum (text "readability/alt_tokens") 2 (
          (text "Use operator ")
          ++ (lookup_text alt_token_replacement (group_text 1 m)
              ++ ((text " instead of ") ++ group_text 1 m))))
        (find_all (length line) alt_token_pattern line))
