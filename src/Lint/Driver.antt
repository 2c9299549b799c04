-- ===== src/Lint/Driver.antt =====
-- `ParseArguments` and `main` of scripts/cpplint.py. What `getopt` makes of the arguments is an argument:
-- the options with their values and the names of the files, or nothing.
pub mod Lines
pub mod Data
pub mod Config
pub mod File
pub mod Restore
pub mod Ascent
pub mod NoParent
use epiphany_bsp.Base.{Bool, List, Option, [], false, if◌then◌else◌, ltb, none, some, true, ℕ, ◌∷◌}
use epiphany_bsp.Base.Int.{negsuc}
use epiphany_bsp.Base.Text.{Text, equal, split, text}
use epiphany_bsp.Lint.Driver.Config.{Files, to_int, write}
use epiphany_bsp.Lint.Driver.File.{process_files}
use epiphany_bsp.Lint.Report.{Globals}
use epiphany_bsp.Lint.State.{
  Counting, OutputFormat, detailed, eclipse, emacs, print_error_counts, reset_error_counts,
  set_counting_style, set_filters, set_output_format, set_verbose_level, toplevel, total, vs7,
}
use epiphany_bsp.Lint.Steps.{each}
use epiphany_bsp.Lint.Style.Width.{Settings}
use epiphany_bsp.Regex.{is_nil, opt}
use epiphany_bsp.Regex.Compile.{pattern}
use epiphany_bsp.Base.Int.{pos}

unfoldable pub is_nil_list : List Text → Bool
is_nil_list [] = true
is_nil_list (x ∷ xs) = false

-- How the program ends: with its usage and a message, with the list of categories, with an exception, or
-- having checked the files. A run with a verbosity below 0 is not followed: it is `beyond`.
pub data Exit {ℓ} (A : Type ℓ) : Type ℓ where
  usage : Option Text → Exit A
  categories raised beyond : Exit A
  finished : A → Exit A

abbrev pub then_exit {ℓ κ} : {A : Type ℓ} → {B : Type κ} → Exit A → (A → Exit B) → Exit B
then_exit (usage message) f = usage message
then_exit categories f = categories
then_exit raised f = raised
then_exit beyond f = beyond
then_exit (finished x) f = f x

pub record Options : Type 0 where
  pub verbosity : ℕ
  pub output_format : OutputFormat
  pub filters : Text
  pub counting_style : Counting
  pub settings : Settings

unfoldable pub output_option : Text → Options → Exit Options
output_option val o =
    if equal val (text "emacs")
    then finished (record o { output_format = emacs })
    else if equal val (text "vs7")
    then finished (record o { output_format = vs7 })
    else if equal val (text "eclipse")
    then finished (record o { output_format = eclipse })
    else usage (some (text "The only allowed output formats are emacs, vs7 and eclipse."))

unfoldable pub counting_option : Text → Options → Exit Options
counting_option val o =
    if equal val (text "total")
    then finished (record o { counting_style = total })
    else if equal val (text "toplevel")
    then finished (record o { counting_style = toplevel })
    else if equal val (text "detailed")
    then finished (record o { counting_style = detailed })
    else usage (some (text "Valid counting options are total, toplevel, and detailed"))

unfoldable pub length_option : Text → Options → Exit Options
length_option val o = elim (to_int val) [
  | none ↦ usage (some (text "Line length must be digits."))
  | some n ↦ finished (record o { settings = record o.settings { line_length = n } })
]

-- The settings have no verbosity below 0.
unfoldable pub verbose_option : Text → Options → Exit Options
verbose_option val o = elim (to_int val) [
  | none ↦ raised
  | some (pos n) ↦ finished (record o { verbosity = n })
  | some (negsuc n) ↦ beyond
]

unfoldable pub parse_option : Text × Text → Options → Exit Options
parse_option (opt, val) o =
    if equal opt (text "--help")
    then usage none
    else if equal opt (text "--output")
    then output_option val o
    else if equal opt (text "--verbose")
    then verbose_option val o
    else if equal opt (text "--filter")
    then (if is_nil val then categories else finished (record o { filters = val }))
    else if equal opt (text "--counting")
    then counting_option val o
    else if equal opt (text "--root")
    then finished
        (record o { settings = record o.settings { root = if is_nil val then none else some val } })
    else if equal opt (text "--linelength")
    then length_option val o
    else if equal opt (text "--extensions")
    then finished (record o { settings = record o.settings { valid_extensions = split val b',' } })
    else finished o

unfoldable pub parse_options : List (Text × Text) → Options → Exit Options
parse_options [] o = finished o
parse_options (opt ∷ opts) o = then_exit (parse_option opt o) (parse_options opts)

-- the settings of the module's state, at the end; an invalid filter raises
unfoldable pub set_options : Options → Globals → Exit (Settings × Globals)
set_options o g =
    let s1 = set_output_format o.output_format g.lint in
    let s2 = (set_verbose_level o.verbosity s1).0 in
    let (s3, failure) = set_filters o.filters s2 in
    elim failure [
      | none ↦ finished (o.settings, record g { lint = set_counting_style o.counting_style s3 })
      | some message ↦ raised
    ]

-- Without an option the style is the empty text, which counts as `total` does.
unfoldable pub parse_arguments :
    Option (List (Text × Text) × List Text)
    → Settings
    → Globals
    → Exit (List Text × (Settings × Globals))
parse_arguments none settings g = usage (some (text "Invalid arguments."))
parse_arguments (some (opts, filenames)) settings g =
    then_exit
      (parse_options opts (record {
        verbosity = g.lint.verbose_level;
        output_format = g.lint.output_format;
        filters = [];
        counting_style = total;
        settings = settings;
      }))
      (λ o.
        if is_nil_list filenames
        then usage (some (text "No files were specified."))
        else then_exit (set_options o g) (λ s. finished (filenames, s)))

-- what is kept at the end, and whether the exit status is 1
unfoldable pub main :
    Files → Option (List (Text × Text) × List Text) → Settings → Globals → Exit (Globals × Bool)
main files arguments settings g =
    then_exit (parse_arguments arguments settings g) (λ (filenames, (settings1, g1)).
      let reset : Globals = record g1 { lint = reset_error_counts g1.lint } in
      let checked : Globals = (process_files files filenames (settings1, reset)).1 in
      if checked.aborted
      then raised
      else finished
          (each write (print_error_counts checked.lint) checked, ltb 0 checked.lint.error_count))
