-- ===== src/Lint/Language/Constructs/Arguments.antt =====
-- The pieces of a constructor's arguments lose nothing.
use epiphany_bsp.Base.{◌≡◌, ◌≢◌, false, List, [], ◌∷◌, All}
use epiphany_bsp.Base.Text.{Text, join_with}
use epiphany_bsp.Lint.Language.Constructs.{is_unbalanced}

abbrev comma : Text
comma = b',' ∷ []

-- joined by commas, the arguments are the text again, and each has its brackets closed
pub record Joined (s : Text) (args : List Text) : Type 0 where
  is_join : join_with comma args ≡ s
  balanced : All (λ a. is_unbalanced a ≡ false) args
  nonempty : args ≢ []
