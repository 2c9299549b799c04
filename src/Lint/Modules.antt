-- ===== src/Lint/Modules.antt =====
-- `FilesBelongToSameModule` of scripts/cpplint.py.
pub mod Prefix
use epiphany_bsp.Base.{
  ℕ, zero, suc, ◌-◌, Bool, true, false, Option, none, some, List, [], ◌∷◌, length, take,
  if◌then◌else◌,
}
use epiphany_bsp.Base.Text.{Text, text, ends_with, replace}

-- `s[:-len(suffix)]`, which for an empty suffix is the empty text
unfoldable pub cut : Text → Text → Text
cut s [] = []
cut s (c ∷ suffix) = take (length s - length (c ∷ suffix)) s

unfoldable pub cut_if : Text → Text → Text
unfolding cut
cut_if s suffix = if ends_with s suffix then cut s suffix else s

unfoldable pub flatten : Text → Text
flatten filename =
    replace (replace filename (text "/public/") (text "/")) (text "/internal/") (text "/")

-- the module of a `.cc` file and of a header, `none` where the name has another ending
unfoldable pub cc_module : Text → Option Text
unfolding cut flatten cut_if
cc_module filename_cc =
    let stem = cut filename_cc (text ".cc") in
    if ends_with filename_cc (text ".cc")
    then some (
        flatten (
          if ends_with stem (text "_unittest")
          then cut stem (text "_unittest")
          else cut_if stem (text "_test")))
    else none

unfoldable pub h_module : Text → Option Text
unfolding cut flatten cut_if
h_module filename_h =
    if ends_with filename_h (text ".h")
    then some (flatten (cut_if (cut filename_h (text ".h")) (text "-inl")))
    else none

unfoldable pub same_module : Text → Text → Bool × Text
same_module cc h = if ends_with cc h then (true, cut cc h) else (false, [])

unfoldable pub files_belong_to_same_module : Text → Text → Bool × Text
unfolding same_module
files_belong_to_same_module filename_cc filename_h = elim (cc_module filename_cc) [
  | none ↦ (false, [])
  | some cc ↦ elim (h_module filename_h) [ none ↦ (false, []) | some h ↦ same_module cc h ]
]
