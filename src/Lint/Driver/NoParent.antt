-- ===== src/Lint/Driver/NoParent.antt =====
-- Where `set noparent` ends the way up through the directories.
use epiphany_bsp.Base.{
  ℕ, zero, suc, ◌≡◌, refl, true, false, not, ◌||◌, Bool-cases, inl, inr, some, List, [], ◌∷◌, ◌++◌,
  arith,
}
use epiphany_bsp.Base.Text.{Text, text, strip, equal}
use epiphany_bsp.Regex.{is_nil}
use epiphany_bsp.Lint.FileInfo.{join_path, split_path}
use epiphany_bsp.Lint.Driver.Config.{
  Files, Overrides, partition, exclude_files, apply_setting, apply_config_line, apply_config_lines,
  apply_config, look_up,
}

-- the loop ends behind this round
abbrev Stopped : Overrides → Type 0
Stopped o = (not o.keep_looking || o.excluded) ≡ true

apply_setting-Stopped :
    (filename cfg_file base_name name val : Text) (o : Overrides)
    → Stopped o
    → Stopped (apply_setting filename cfg_file base_name name val o)
unfolding apply_setting exclude_files
apply_setting-Stopped filename cfg_file base_name name val o h = ground (arith, h)

apply_config_lines-Stopped :
    (filename cfg_file base_name : Text) (lines : List Text) (o : Overrides)
    → Stopped o
    → Stopped (apply_config_lines filename cfg_file base_name lines o)
unfolding apply_config_lines apply_config_line
apply_config_lines-Stopped filename cfg_file base_name [] o h = h
apply_config_lines-Stopped filename cfg_file base_name (line ∷ lines) o h =
    apply_config_lines-Stopped filename cfg_file base_name lines _
      (grind (arith, h, apply_setting-Stopped))

noparent-Stopped :
    (filename cfg_file base_name : Text) (o : Overrides)
    → Stopped (apply_config_line filename cfg_file base_name (text "set noparent\n") o)
unfolding apply_config_line apply_setting text partition strip equal
noparent-Stopped filename cfg_file base_name o = elim (Bool-cases o.excluded) [
  | inl e ↦ ground (arith, e)
  | inr e ↦ ground (arith, e)
]

lines-Stopped :
    (filename cfg_file base_name : Text) (before after : List Text) (o : Overrides)
    → Stopped
        (apply_config_lines filename cfg_file base_name (before ++ text "set noparent\n" ∷ after) o)
unfolding apply_config_lines
lines-Stopped filename cfg_file base_name [] after o =
    apply_config_lines-Stopped filename cfg_file base_name after _
      (noparent-Stopped filename cfg_file base_name o)
lines-Stopped filename cfg_file base_name (line ∷ before) after o =
    lines-Stopped filename cfg_file base_name before after _

stops :
    (fuel : ℕ) (files : Files) (filename path : Text) (o : Overrides)
    → Stopped o
    → look_up fuel files filename path o ≡ o
unfolding look_up
stops zero files filename path o h = refl
stops (suc fuel) files filename path o h = ground (arith, h)

-- Where the way up comes to a directory whose CPPLINT.cfg has a line `set noparent`, what the files have
-- said in the end is what they say once this one is read to its end: no file of a directory above is read.
pub look_up-noparent :
    (fuel : ℕ) (files : Files) (filename path : Text) (before after : List Text) (o : Overrides)
    → o.keep_looking ≡ true
    → o.excluded ≡ false
    → is_nil (split_path path).1 ≡ false
    → files.is_file (join_path (split_path path).0 (text "CPPLINT.cfg")) ≡ true
    → files.read_lines (join_path (split_path path).0 (text "CPPLINT.cfg"))
      ≡ some (before ++ text "set noparent\n" ∷ after)
    → look_up (suc fuel) files filename path o
      ≡ apply_config files filename (split_path path).0 (split_path path).1 o
unfolding look_up
look_up-noparent fuel files filename path before after o looking included named is_file lines =
    let (dir, base) = split_path path in
    let read = lines-Stopped filename (join_path dir (text "CPPLINT.cfg")) base before after o in
    let next = apply_config files filename dir base o in
    let ended : Stopped next = unfold apply_config in rw (is_file, lines) read in
    let goes_on : (not o.keep_looking || o.excluded || is_nil base) ≡ false =
      ground (arith, looking, included, named) in
    rw goes_on (stops fuel files filename dir next ended)
