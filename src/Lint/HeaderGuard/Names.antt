-- ===== src/Lint/HeaderGuard/Names.antt =====
-- The characters of a header guard's name.
use epiphany_bsp.Base.{
  ℕ, ◌≡◌, Bool, true, ◌&&◌, ◌||◌, Option, [], ◌∷◌, map, All, All-append, leb, ◌==◌, arith,
}
use epiphany_bsp.Base.Text.{Text, upper, upper_char}
use epiphany_bsp.Lint.FileInfo.{FileSystem}
use epiphany_bsp.Lint.HeaderGuard.{guard_char, guard_of, get_header_guard_cpp_variable}

-- a capital, a digit or an underscore
abbrev pub is_guard_char : ℕ → Bool
is_guard_char c = (leb 65 c && leb c 90) || (leb 48 c && leb c 57) || c == b'_'

guard_char-is_guard_char : (c : ℕ) → is_guard_char (upper_char (guard_char c)) ≡ true
guard_char-is_guard_char c = ground arith

map-is_guard_char : (s : Text) → All (λ c. is_guard_char c ≡ true) (upper (map guard_char s))
unfolding upper
map-is_guard_char [] = tt
map-is_guard_char (c ∷ s) = (guard_char-is_guard_char c, map-is_guard_char s)

-- Whatever the file is called, the name that the linter asks for as its header guard has only
-- capitals, digits and underscores.
pub get_header_guard_cpp_variable-is_guard_char :
    (fs : FileSystem) (root : Option Text) (filename : Text)
    → All (λ c. is_guard_char c ≡ true) (get_header_guard_cpp_variable fs root filename)
unfolding get_header_guard_cpp_variable guard_of
get_header_guard_cpp_variable-is_guard_char fs root filename =
    All-append (λ c. is_guard_char c ≡ true) _ (b'_' ∷ []) (map-is_guard_char _) (λ i. true, tt)
