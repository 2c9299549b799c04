-- ===== src/Lint/FileInfo.antt =====
-- The class `FileInfo` of scripts/cpplint.py: a file's name below the root of its checkout. The file
-- system and the methods of `os.path` that ask it are an argument; those that only work on text are
-- defined as `posixpath` has them.
pub mod Climb
pub mod Below
use epiphany_bsp.Base.{
  ℕ, zero, suc, ◌+◌, ◌-◌, Bool, true, false, not, ◌&&◌, ◌||◌, [], ◌∷◌, ◌++◌, length, take, drop,
  ◌==◌, if◌then◌else◌,
}
use mathlib.Core.List.{reverse}
use epiphany_bsp.Base.Text.{Text, text, equal, member, ends_with, replace}

-- `os.path.abspath` and `os.path.exists`
pub record FileSystem : Type 0 where
  pub abs_path : Text → Text
  pub exists : Text → Bool

-- The characters from the end up to the last `sep`, and those before it with `sep`, on a text that
-- is read backwards.
abbrev pub until_last : ℕ → Text → Text × Text
until_last sep [] = ([], [])
until_last sep (c ∷ s) =
    let (name, front) = until_last sep s in if c == sep then ([], c ∷ s) else (c ∷ name, front)

abbrev strip_char : ℕ → Text → Text
strip_char sep [] = []
strip_char sep (c ∷ s) = let rest = strip_char sep s in if c == sep then rest else c ∷ s

abbrev head_of : Text → Text
head_of front = elim (strip_char b'/' front) [ [] ↦ reverse front | c ∷ s ↦ reverse (c ∷ s) ]

-- `os.path.split`, with `os.path.dirname` and `os.path.basename`
unfoldable pub split_path : Text → Text × Text
split_path p = let (name, front) = until_last b'/' (reverse p) in (head_of front, reverse name)

unfoldable pub dirname : Text → Text
unfolding split_path
dirname p = (split_path p).0

unfoldable pub basename : Text → Text
unfolding split_path
basename p = (split_path p).1

-- `os.path.join(a, b)` for a relative `b`
unfoldable pub join_path : Text → Text → Text
unfolding ends_with
join_path [] b = b
join_path (c ∷ a) b = if ends_with (c ∷ a) (b'/' ∷ []) then (c ∷ a) ++ b else (c ∷ a) ++ b'/' ∷ b

-- `os.path.splitext`: the last dot counts unless only dots stand before it in the last component.
abbrev only_dots : Text → Bool
only_dots [] = true
only_dots (c ∷ s) = c == b'.' && only_dots s

abbrev has_dot : Text → Bool
has_dot [] = false
has_dot (c ∷ s) = c == b'.' || has_dot s

unfoldable pub splitext : Text → Text × Text
unfolding split_path
splitext p =
    let (name, front) = until_last b'/' (reverse p) in
    let (extension, stem) = until_last b'.' name in
    if not (has_dot name) || only_dots (drop 1 stem)
    then (p, [])
    else (take (length p - suc (length extension)) p, b'.' ∷ reverse extension)

-- `os.path.commonprefix` of two texts
unfoldable pub common_prefix : Text → Text → Text
common_prefix (c ∷ s) (d ∷ t) = let more = common_prefix s t in if c == d then c ∷ more else []
common_prefix _ _ = []

module _ (fs : FileSystem) where
  abbrev pub has_mark : Text → Text → Bool
  has_mark mark dir = fs.exists (join_path dir mark)

  unfoldable pub full_name : Text → Text
  full_name filename = replace (fs.abs_path filename) (text "\\") (text "/")

  -- The climb while the directory above has a `.svn`. The source's loop does not end where the root
  -- has one; here the climb ends with the fuel.
  unfoldable pub top_svn : ℕ → Text → Text
  top_svn zero root_dir = root_dir
  top_svn (suc f) root_dir =
      let more = top_svn f (dirname root_dir) in
      if has_mark (text ".svn") (dirname root_dir) then more else root_dir

  unfoldable pub is_checkout : Text → Bool
  is_checkout dir =
      has_mark (text ".git") dir || has_mark (text ".hg") dir || has_mark (text ".svn") dir

  -- the climb to a directory with `.git`, `.hg` or `.svn`, or to the root
  unfoldable pub top_checkout : ℕ → Text → Text
  unfolding is_checkout
  top_checkout zero root_dir = root_dir
  top_checkout (suc f) root_dir =
      let more = top_checkout f (dirname root_dir) in
      if equal root_dir (dirname root_dir) || is_checkout root_dir then root_dir else more

  unfoldable pub below : Text → Text → Text → Text
  below root_dir project_dir fullname =
      drop (length (common_prefix root_dir project_dir) + 1) fullname

  unfoldable pub repository_name : Text → Text
  unfolding full_name top_svn top_checkout below is_checkout
  repository_name filename =
      let fullname = full_name filename in
      let project_dir = dirname fullname in
      let fuel = length fullname in
      if not (fs.exists fullname)
      then fullname
      else if has_mark (text ".svn") project_dir
      then below (top_svn fuel project_dir) project_dir fullname
      else let root_dir = top_checkout fuel (dirname fullname) in
        (if is_checkout root_dir then below root_dir project_dir fullname else fullname)

  -- directory, base name and extension
  unfoldable pub split : Text → Text × Text × Text
  unfolding repository_name split_path splitext
  split filename =
      let (project, rest) = split_path (repository_name filename) in
      let (stem, extension) = splitext rest in (project, stem, extension)

  unfoldable pub base_name : Text → Text
  unfolding split
  base_name filename = (split filename).1

  unfoldable pub extension : Text → Text
  unfolding split
  extension filename = (split filename).2

  unfoldable pub no_extension : Text → Text
  unfolding split
  no_extension filename = let (project, stem, ext) = split filename in project ++ b'/' ∷ stem

  unfoldable pub is_source : Text → Bool
  unfolding extension
  is_source filename =
      member (drop 1 (extension filename)) (text "c" ∷ text "cc" ∷ text "cpp" ∷ text "cxx" ∷ [])
