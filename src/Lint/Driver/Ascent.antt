-- ===== src/Lint/Driver/Ascent.antt =====
-- How many rounds the way up through the directories may take.
use mathlib.Core.List.{reverse}
use epiphany_bsp.Base.{
  ℕ, zero, suc, ◌+◌, ◌<◌, ◌≡◌, refl, false, Bool-cases, inl, inr, [], ◌∷◌, length, arith,
}
use epiphany_bsp.Base.Text.{Text}
use epiphany_bsp.Base.Int.{ℤ}
use epiphany_bsp.Regex.{is_nil}
use epiphany_bsp.Lint.FileInfo.{FileSystem, split_path, until_last}
use epiphany_bsp.Lint.FileInfo.Climb.{length-head_of, length-reverse}
use epiphany_bsp.Lint.Driver.Config.{
  Files, Overrides, look_up, apply_config, no_overrides, config_overrides,
}

length-until_last-both :
    (sep : ℕ) (s : Text) → length (until_last sep s).0 + length (until_last sep s).1 ≡ length s
length-until_last-both sep [] = refl
length-until_last-both sep (c ∷ s) = ground (arith, length-until_last-both sep s)

named : (name : Text) → is_nil (reverse name) ≡ false → 0 < length name
named [] h = ground (arith, h)
named (c ∷ name) h = omega arith

-- a path with a last component has a shorter directory
length-split_path :
    (p : Text) → is_nil (split_path p).1 ≡ false → length (split_path p).0 < length p
unfolding split_path
length-split_path p h =
    let parts = until_last b'/' (reverse p) in
    omega (
      arith,
      length-until_last-both b'/' (reverse p),
      length-head_of parts.1,
      length-reverse p,
      named parts.0 h,
    )

look_up-enough :
    (f n : ℕ) (files : Files) (filename path : Text) (o : Overrides)
    → length path < f
    → length path < n
    → look_up f files filename path o ≡ look_up n files filename path o
unfolding look_up
look_up-enough zero n files filename path o lf ln = absurd (omega (arith, lf))
look_up-enough (suc f) zero files filename path o lf ln = absurd (omega (arith, ln))
look_up-enough (suc f) (suc n) files filename path o lf ln =
    let next = apply_config files filename (split_path path).0 (split_path path).1 o in
    elim (Bool-cases (is_nil (split_path path).1)) [
      | inl e ↦ ground (arith, e)
      | inr e ↦
          let less = length-split_path path e in
          ground (
            arith,
            look_up-enough f n files filename (split_path path).0 next (omega (arith, less, lf))
                (omega (arith, less, ln)),
          )
    ]

-- With more rounds than the absolute path has characters the overrides are the same.
pub config_overrides-enough :
    (files : Files) (fs : FileSystem) (line_length : ℤ) (filename : Text) (fuel : ℕ)
    → length (fs.abs_path filename) < fuel
    → config_overrides files fs line_length filename
      ≡ look_up fuel files filename (fs.abs_path filename) (no_overrides line_length)
unfolding config_overrides
config_overrides-enough files fs line_length filename fuel lt =
    look_up-enough _ fuel files filename (fs.abs_path filename) _ (omega arith) lt
