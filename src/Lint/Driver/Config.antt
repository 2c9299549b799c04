-- ===== src/Lint/Driver/Config.antt =====
-- `ProcessConfigOverrides` of scripts/cpplint.py: the `CPPLINT.cfg` files of the directories above a
-- file. What the files hold, and which can be read, is an argument.
use epiphany_bsp.Base.{
  Bool, List, Option, [], false, if◌then◌else◌, length, none, not, some, suc, true, zero, ℕ, ◌&&◌,
  ◌*◌, ◌++◌, ◌+◌, ◌-◌, ◌==◌, ◌||◌, ◌∷◌,
}
use epiphany_bsp.Base.Int.{negsuc, ℤ}
use epiphany_bsp.Base.Text.{Text, equal, strip, text}
use epiphany_bsp.Lint.FileInfo.{FileSystem, base_name, join_path, split_path}
use epiphany_bsp.Lint.Report.{Globals}
use epiphany_bsp.Lint.State.{add_filters}
use epiphany_bsp.Lint.Steps.{Action, crash, each}
use epiphany_bsp.Lint.Style.Width.{Settings}
use epiphany_bsp.Regex.{is_nil, matches}
use epiphany_bsp.Regex.Compile.{is_digit, pattern}
use mathlib.Core.List.{reverse}
use epiphany_bsp.Base.Int.{pos}

-- `os.path.isfile`; the lines of a configuration file, of a header, and the text of a file or of
-- `sys.stdin` for `-`; `none` is for `IOError`
pub record Files : Type 0 where
  pub is_file : Text → Bool
  pub read_lines : Text → Option (List Text)
  pub read_text : Text → Option Text

-- `sys.stderr.write`
unfoldable pub write : Text → Action
write message g = if g.aborted then g else record g { stderr = g.stderr ++ message ∷ [] }

-- what stands before the first of a character, and behind it
unfoldable pub partition : ℕ → Text → Text × Text
partition sep [] = ([], [])
partition sep (c ∷ s) =
    let (front, rest) = partition sep s in if c == sep then ([], s) else (c ∷ front, rest)

abbrev add_digit : ℕ → Option ℕ → ℕ → Option ℕ
add_digit n none c = none
add_digit n (some k) c = if is_digit c then some (10 * k + (c - 48)) else none

unfoldable pub number_from : Option ℕ → Text → Option ℕ
number_from n [] = n
number_from n (c ∷ s) = number_from (add_digit 0 n c) s

unfoldable pub to_number : Text → Option ℕ
to_number s = if is_nil s then none else number_from (some 0) s

-- `int(s)` for decimal digits, `none` where it raises
unfoldable pub to_int : Text → Option ℤ
to_int s = elim (strip s) [
  | [] ↦ none
  | c ∷ t ↦
      if c == b'-'
      then (elim (to_number t) [
        | none ↦ none
        | some zero ↦ some (pos 0)
        | some (suc n) ↦ some (negsuc n)
      ])
      else elim (to_number (if c == b'+' then t else c ∷ t)) [ none ↦ none | some n ↦ some (pos n) ]
]

-- what the files have said so far; nothing is read once the file is excluded
pub record Overrides : Type 0 where
  pub keep_looking : Bool
  pub excluded : Bool
  pub filters : List Text
  pub line_length : ℤ
  pub messages : List Text

abbrev say : Text → Overrides → Overrides
say message o = record o { messages = o.messages ++ message ∷ [] }

unfoldable pub exclude_files : Text → Text → Text → Text → Overrides → Overrides
exclude_files filename cfg_file base_name val o =
    if not (is_nil base_name) && matches (pattern val) base_name
    then record (say
        ((text "Ignoring \"")
          ++ (filename
              ++ ((text "\": file excluded by \"")
                  ++ (cfg_file
                      ++ ((text "\". File path component \"")
                          ++ (base_name
                              ++ ((text "\" matches pattern \"") ++ (val ++ (text "\"\n")))))))))
        o) { excluded = true }
    else o

unfoldable pub apply_setting : Text → Text → Text → Text → Text → Overrides → Overrides
apply_setting filename cfg_file base_name name val o =
    if equal name (text "set noparent")
    then record o { keep_looking = false }
    else if equal name (text "filter")
    then record o { filters = o.filters ++ val ∷ [] }
    else if equal name (text "exclude_files")
    then exclude_files filename cfg_file base_name val o
    else if equal name (text "linelength")
    then (elim (to_int val) [
      | none ↦ say (text "Line length must be numeric.") o
      | some n ↦ record o { line_length = n }
    ])
    else say
        ((text "Invalid configuration option (")
          ++ (name ++ ((text ") in file ") ++ (cfg_file ++ (text "\n")))))
        o

unfoldable pub apply_config_line : Text → Text → Text → Text → Overrides → Overrides
apply_config_line filename cfg_file base_name raw o =
    let line = (partition b'#' raw).0 in
    let (name, val) = partition b'=' line in
    if o.excluded || is_nil (strip line)
    then o
    else apply_setting filename cfg_file base_name (strip name) (strip val) o

unfoldable pub apply_config_lines : Text → Text → Text → List Text → Overrides → Overrides
apply_config_lines filename cfg_file base_name [] o = o
apply_config_lines filename cfg_file base_name (line ∷ lines) o =
    apply_config_lines filename cfg_file base_name lines
      (apply_config_line filename cfg_file base_name line o)

-- one round: the file in a directory, if there is one
unfoldable pub apply_config : Files → Text → Text → Text → Overrides → Overrides
apply_config files filename abs_path base_name o =
    let cfg_file = join_path abs_path (text "CPPLINT.cfg") in
    if not (files.is_file cfg_file) then o else elim (files.read_lines cfg_file) [
      | none ↦
          record (say
            ((text "Skipping config file '") ++ (cfg_file ++ (text "': Can't open for reading\n")))
            o) { keep_looking = false }
      | some lines ↦ apply_config_lines filename cfg_file base_name lines o
    ]

-- The way up. A round takes the last component off the path, so that one round for each of its
-- characters is enough.
unfoldable pub look_up : ℕ → Files → Text → Text → Overrides → Overrides
look_up zero files filename path o = o
look_up (suc fuel) files filename path o =
    let (abs_path, base_name) = split_path path in
    let above =
      look_up fuel files filename abs_path (apply_config files filename abs_path base_name o) in
    if not o.keep_looking || o.excluded || is_nil base_name then o else above

abbrev pub no_overrides : ℤ → Overrides
no_overrides line_length = record {
  keep_looking = true;
  excluded = false;
  filters = [];
  line_length = line_length;
  messages = [];
}

unfoldable pub config_overrides : Files → FileSystem → ℤ → Text → Overrides
config_overrides files fs line_length filename =
    look_up (suc (length (fs.abs_path filename))) files filename (fs.abs_path filename)
      (no_overrides line_length)

-- `_AddFilters`, whose `ValueError` nothing catches
unfoldable pub add_filter : Text → Action
add_filter filter g =
    let (lint, failure) = add_filters filter g.lint in
    elim failure [
      | none ↦ record g { lint = lint }
      | some message ↦ crash (record g { lint = lint })
    ]

-- whether the file is to be checked
unfoldable pub process_config_overrides :
    Files → Text → Settings × Globals → Bool × (Settings × Globals)
process_config_overrides files filename (settings, g) =
    let o = config_overrides files settings.file_system settings.line_length filename in
    let settings1 = record settings { line_length = o.line_length } in
    let g1 = each write o.messages g in
    if o.excluded
    then (false, (settings1, g1))
    else (true, (settings1, each add_filter (reverse o.filters) g1))
