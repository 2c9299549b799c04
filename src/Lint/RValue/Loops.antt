-- ===== src/Lint/RValue/Loops.antt =====
-- Where `IsRValueType` of scripts/cpplint.py ends its walk over a block.
use mathlib.Core.List.{append_assoc}
use epiphany_bsp.Base.{
  ℕ, ◌+◌, suc, ◌≡◌, refl, ap, ◌∙◌, true, not, ◌&&◌, Bool, List, [], ◌∷◌, ◌++◌, All, arith, ◌==◌,
  length, take,
}
use epiphany_bsp.Base.Text.{Text}
use epiphany_bsp.Lint.RValue.Symbols.{scan_block, has_statement}
use epiphany_bsp.Lint.Spacing.Punctuation.{concat_text, lines_between}
use epiphany_bsp.Lint.Steps.{line_at}

-- no brace and no semicolon
abbrev pub is_plain : ℕ → Bool
is_plain c = not (c == b';') && (not (c == b'{') && not (c == b'}'))

scan_block-plain :
    (depth : ℕ) (body rest : Text)
    → All (λ c. is_plain c ≡ true) body
    → scan_block depth (body ++ rest) ≡ scan_block depth rest
unfolding scan_block
scan_block-plain depth [] rest h = refl
scan_block-plain depth (c ∷ body) rest h = ground (arith, h.0, scan_block-plain depth body rest h.1)

opened : (rest : Text) → scan_block 1 (b'{' ∷ rest) ≡ scan_block 2 rest
unfolding scan_block
opened rest = refl

closed : (rest : Text) → scan_block 2 (b'}' ∷ rest) ≡ scan_block 1 rest
unfolding scan_block
closed rest = refl

stopped : (rest : Text) → scan_block 1 (b';' ∷ rest) ≡ true
unfolding scan_block
stopped rest = refl

take-brace :
    (before tail : Text) → take (suc (length before)) (before ++ b'{' ∷ tail) ≡ before ++ b'{' ∷ []
take-brace [] tail = refl
take-brace (c ∷ before) tail = ap (λ t. c ∷ t) (take-brace before tail)

-- Where the line with the opening brace and the lines below are plain code up to the closing brace and
-- from there to a semicolon, the block without a statement is taken to have one: the brace that opens it
-- is counted once more, so the walk goes past the brace that closes it.
pub has_statement-closed :
    (elided : List Text) (start : ℕ) (before tail body gap rest : Text)
    → line_at elided start ≡ before ++ b'{' ∷ tail
    → concat_text (lines_between elided (start + 1) (length elided))
      ≡ body ++ b'}' ∷ (gap ++ b';' ∷ rest)
    → All (λ c. is_plain c ≡ true) before
    → All (λ c. is_plain c ≡ true) tail
    → All (λ c. is_plain c ≡ true) body
    → All (λ c. is_plain c ≡ true) gap
    → has_statement elided start (length before) ≡ true
unfolding has_statement
has_statement-closed elided start before tail body gap rest line below hb ht hy hg =
    let after = gap ++ b';' ∷ rest in
    let width : length before + 1 ≡ suc (length before) = omega arith in
    rw (line, below, width, take-brace before tail, append_assoc)
      (scan_block-plain 1 before (b'{' ∷ (body ++ b'}' ∷ after)) hb
        ∙ opened (body ++ b'}' ∷ after)
        ∙ scan_block-plain 2 body (b'}' ∷ after) hy
        ∙ closed after
        ∙ scan_block-plain 1 gap (b';' ∷ rest) hg
        ∙ stopped rest)
