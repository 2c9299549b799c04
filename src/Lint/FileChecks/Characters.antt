-- ===== src/Lint/FileChecks/Characters.antt =====
-- What the check for bad characters prints.
use epiphany_bsp.Base.{
  ℕ, suc, ◌≡◌, refl, sym, ap, ◌∙◌, Bool, false, List, [], ◌∷◌, ◌++◌, any, ◌==◌, arith, All,
  if◌then◌else◌,
}
use epiphany_bsp.Base.Text.{Text, text, find, contains, starts_with}
use epiphany_bsp.Lint.State.Laws.{IsSigned}
use epiphany_bsp.Lint.Report.{Globals, error}
use epiphany_bsp.Lint.Report.Laws.{Call, call, call_all, printed_lines, error-printed_lines}
use epiphany_bsp.Lint.FileChecks.{
  check_characters, check_characters_from, check_for_bad_characters, replacement_character,
}

-- a character of the line is the one
abbrev pub has : ℕ → Text → Bool
has c line = any (λ d. d == c) line

contains-has : (line : Text) (c : ℕ) → contains line (c ∷ []) ≡ has c line
unfolding find starts_with
contains-has [] c = refl
contains-has (d ∷ line) c = ground (arith, contains-has line c)

abbrev utf8_call : Text → ℕ → Call
utf8_call filename linenum = record {
  filename = filename;
  linenum = linenum;
  category = text "readability/utf8";
  confidence = 5;
  message = text "Line contains invalid UTF-8 (or Unicode replacement character).";
}

abbrev nul_call : Text → ℕ → Call
nul_call filename linenum = record {
  filename = filename;
  linenum = linenum;
  category = text "readability/nul";
  confidence = 5;
  message = text "Line contains NUL byte.";
}

abbrev when : Bool → Call → List Call
when b c = if b then c ∷ [] else []

-- the findings on the lines from `linenum` on
abbrev pub bad_characters : Text → ℕ → List Text → List Call
bad_characters filename linenum [] = []
bad_characters filename linenum (line ∷ lines) =
    when (has replacement_character line) (utf8_call filename linenum)
    ++ (when (has 0 line) (nul_call filename linenum)
        ++ bad_characters filename (suc linenum) lines)

call_all-append :
    (cs ds : List Call) (g : Globals) → call_all (cs ++ ds) g ≡ call_all ds (call_all cs g)
call_all-append [] ds g = refl
call_all-append (c ∷ cs) ds g = call_all-append cs ds (call c g)

check_characters-when :
    (filename : Text) (linenum : ℕ) (line : Text) (g : Globals)
    → check_characters filename linenum line error g
      ≡ call_all
          (when (has 0 line) (nul_call filename linenum))
          (call_all (when (has replacement_character line) (utf8_call filename linenum)) g)
unfolding check_characters
check_characters-when filename linenum line g =
    ground (arith, contains-has line 0, contains-has line replacement_character)

check_characters_from-bad_characters :
    (filename : Text) (linenum : ℕ) (lines : List Text) (g : Globals)
    → check_characters_from filename linenum lines error g
      ≡ call_all (bad_characters filename linenum lines) g
unfolding check_characters_from
check_characters_from-bad_characters filename linenum [] g = refl
check_characters_from-bad_characters filename linenum (line ∷ lines) g =
    let utf8 = when (has replacement_character line) (utf8_call filename linenum) in
    let nul = when (has 0 line) (nul_call filename linenum) in
    let rest = bad_characters filename (suc linenum) lines in
    check_characters_from-bad_characters filename (suc linenum) lines
      (check_characters filename linenum line error g)
    ∙ ap (call_all rest) (check_characters-when filename linenum line g)
    ∙ sym (call_all-append utf8 (nul ++ rest) g ∙ call_all-append nul rest (call_all utf8 g))

-- Where every filter has a sign, CheckForBadCharacters with Error as its handler fails no assertion,
-- and what it prints is, line after line, the finding for a line with a replacement character, and
-- behind it the finding for a line with a NUL byte, each unless the settings turn it off.
pub check_for_bad_characters-printed_lines :
    (filename : Text) (lines : List Text) (g : Globals)
    → g.aborted ≡ false
    → All IsSigned g.lint.filters
    → let h = check_for_bad_characters filename lines error g in
      (h.stderr ≡ g.stderr ++ printed_lines g (bad_characters filename 0 lines))
      × (h.aborted ≡ false)
unfolding check_for_bad_characters
check_for_bad_characters-printed_lines filename lines g live signed =
    let made = check_characters_from-bad_characters filename 0 lines g in
    let printed = error-printed_lines (bad_characters filename 0 lines) g live signed in
    (ap (λ h. h.stderr) made ∙ printed.0, ap (λ h. h.aborted) made ∙ printed.2)
