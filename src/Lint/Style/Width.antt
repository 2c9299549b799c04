-- ===== src/Lint/Style/Width.antt =====
-- `GetLineWidth` of scripts/cpplint.py, for the unicode lines of a file. The tables of `unicodedata` are
-- an argument, with the `lower()` of a unicode text: `normalize('NFC', s)`, whether `east_asian_width` is `W` or `F`, and whether `combining` is
-- not 0. A record holds what the module keeps of the command line and the configuration.
use epiphany_bsp.Base.{Bool, List, Option, [], if◌then◌else◌, ltb, true, ℕ, ◌*◌, ◌+◌, ◌-◌, ◌/◌, ◌∷◌}
use epiphany_bsp.Base.Int.{negsuc, pos, ℤ}
use epiphany_bsp.Base.Text.{Text, decimal}
use epiphany_bsp.Lint.FileInfo.{FileSystem}

pub record Unicode : Type 0 where
  pub normalize : Text → Text
  pub lower : Text → Text
  pub is_wide : ℕ → Bool
  pub is_combining : ℕ → Bool

unfoldable pub width_of : Unicode → Text → ℕ
width_of u [] = 0
width_of u (c ∷ s) = (if u.is_wide c then 2 else if u.is_combining c then 0 else 1) + width_of u s

unfoldable pub get_line_width : Unicode → Text → ℕ
get_line_width u line = width_of u (u.normalize line)

-- `n > limit`, for a limit that the command line or a file gives
unfoldable pub exceeds : ℕ → ℤ → Bool
exceeds n (pos limit) = ltb limit n
exceeds n (negsuc _) = true

-- `int(n * 1.25)`, which is rounded towards 0
unfoldable pub extended_length : ℤ → ℤ
extended_length (pos n) = pos (n * 5 / 4)
extended_length (negsuc n) = negsuc ((n + 1) * 5 / 4 - 1)

-- `'%i' % n`
unfoldable pub decimal_int : ℤ → Text
decimal_int (pos n) = decimal n
decimal_int (negsuc n) = b'-' ∷ decimal (n + 1)

-- `_root`, `_line_length` and `_valid_extensions`, the file system and the tables
pub record Settings : Type 0 where
  pub root : Option Text
  pub line_length : ℤ
  pub valid_extensions : List Text
  pub file_system : FileSystem
  pub unicode : Unicode
