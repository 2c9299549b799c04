-- ===== src/Tests/Brackets.antt =====
-- Brackets.
use epiphany_bsp.Base.{◌+◌, ◌≡◌, refl, List, [], ◌∷◌, ◌++◌, some, arith}
use epiphany_bsp.Base.Text.{Text}
use epiphany_bsp.Lint.Expression.{close_expression}
use epiphany_bsp.Lint.Expression.Balanced.{Balanced, nil, plain, nest, close_expression-Balanced}
use epiphany_bsp.Lint.Expression.Bounds.{IsPlaceIn, close_expression-IsPlaceIn}

abbrev code : List Text
code = (b'f' ∷ b'(' ∷ b'a' ∷ b'[' ∷ b']' ∷ b')' ∷ b';' ∷ []) ∷ []

abbrev inner : Text
inner = b'a' ∷ b'[' ∷ b']' ∷ []

inner-Balanced : Balanced inner
inner-Balanced = plain b'a' (b'[' ∷ b']' ∷ []) refl (nest b'[' b']' [] [] refl nil nil refl)

close_expression-Balanced_example : close_expression code 0 1 ≡ record {
  line = (b'f' ∷ []) ++ b'(' ∷ (inner ++ b')' ∷ b';' ∷ []);
  linenum = 0;
  pos = some (1 + 3 + 2);
}
close_expression-Balanced_example =
    close_expression-Balanced code 0 (b'f' ∷ []) inner (b';' ∷ []) b'(' b')' refl inner-Balanced
      refl

close_expression-IsPlaceIn_example : IsPlaceIn code 0 6 (close_expression code 0 1)
unfolding close_expression
close_expression-IsPlaceIn_example =
    close_expression-IsPlaceIn code 6 0 1 (omega arith)
      (λ i. (close_expression-Balanced_example i).pos)
