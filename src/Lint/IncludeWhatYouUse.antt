-- ===== src/Lint/IncludeWhatYouUse.antt =====
-- `_HEADERS_CONTAINING_TEMPLATES`, `UpdateIncludeState` and `CheckForIncludeWhatYouUse` of
-- scripts/cpplint.py: the headers that the code of a file asks for. A file's lines come from an argument.
-- Python fixes no order of a dictionary's items; here they come in the order of insertion.
pub mod Templates
use epiphany_bsp.Base.{
  Bool, List, Option, [], false, if◌then◌else◌, map, none, not, some, suc, true, ℕ, ◌&&◌, ◌++◌,
  ◌==◌, ◌||◌, ◌∷◌,
}
use epiphany_bsp.Base.Text.{Text, contains, ends_with, equal, member, starts_with, text}
use epiphany_bsp.Lint.Cleanse.{CleansedLines}
use epiphany_bsp.Lint.Cleanse.Comments.{cleanse_comments}
use epiphany_bsp.Lint.FileInfo.{FileSystem, full_name}
use epiphany_bsp.Lint.IncludeState.{IncludeState}
use epiphany_bsp.Lint.IncludeWhatYouUse.Templates.{
  algorithm_templates, headers_containing_templates,
}
use epiphany_bsp.Lint.Includes.{include_line}
use epiphany_bsp.Lint.Modules.{files_belong_to_same_module, same_module}
use epiphany_bsp.Lint.Report.{Handler}
use epiphany_bsp.Lint.Steps.{Action, each, when}
use epiphany_bsp.Regex.{group_text, is_nil, occurs, replace_all, search_in}
use epiphany_bsp.Regex.Compile.{pattern, re}
use mathlib.Core.List.{reverse}

-- what a header is needed for: its name with `<>`, the last line that asks for it, and the name there
abbrev pub Required : Type 0
Required = List (Text × (ℕ × Text))

unfoldable pub require : Text → ℕ → Text → Required → Required
require header linenum template [] = (header, (linenum, template)) ∷ []
require header linenum template ((h, e) ∷ rows) =
    let others = require header linenum template rows in
    if equal header h then (h, (linenum, template)) ∷ rows else (h, e) ∷ others

unfoldable pub require_string : Text → ℕ → Required → Required
require_string line linenum required = elim (search_in (re "\\bstring\\b") line) [
  | none ↦ required
  | some m ↦
      if ends_with m.head (text "std::") || not (ends_with m.head (text "::"))
      then require (text "<string>") linenum (text "string") required
      else required
]

unfoldable pub require_algorithms : List Text → Text → ℕ → Required → Required
require_algorithms [] line linenum required = required
require_algorithms (t ∷ ts) line linenum required = require_algorithms ts line linenum (
    if occurs (pattern ((text "[^>.]\\b") ++ (t ++ (text "(<.*?>)?\\([^\\)]")))) line
    then require (text "<algorithm>") linenum t required
    else required)

unfoldable pub require_templates : Text → List Text → Text → ℕ → Required → Required
require_templates header [] line linenum required = required
require_templates header (t ∷ ts) line linenum required = require_templates header ts line linenum (
    if occurs (pattern ((text "(\\<|\\b)") ++ (t ++ (text "\\s*\\<")))) line
    then require header linenum (t ++ (text "<>")) required
    else required)

unfoldable pub require_headers : List (Text × List Text) → Text → ℕ → Required → Required
require_headers [] line linenum required = required
require_headers ((header, templates) ∷ rows) line linenum required =
    require_headers rows line linenum (require_templates header templates line linenum required)

unfoldable pub require_line : Text → ℕ → Required → Required
require_line line linenum required =
    let known : Required =
      require_algorithms algorithm_templates line linenum (require_string line linenum required) in
    if is_nil line || starts_with line (text "#")
    then required
    else if contains line (text "<")
    then require_headers headers_containing_templates line linenum known
    else known

unfoldable pub require_lines : List Text → ℕ → Required → Required
require_lines [] linenum required = required
require_lines (line ∷ lines) linenum required =
    require_lines lines (suc linenum) (require_line line linenum required)

-- the includes of a header's lines, added to those that are known
unfoldable pub add_includes : List Text → List Text → List Text
add_includes [] includes = includes
add_includes (line ∷ lines) includes =
    add_includes lines (elim (search_in include_line (cleanse_comments line)) [
      | none ↦ includes
      | some m ↦
          if member (group_text 2 m) includes then includes else includes ++ group_text 2 m ∷ []
    ])

unfoldable pub update_include_state :
    (Text → Option (List Text)) → Text → List Text → Option (List Text)
update_include_state read_lines filename includes = elim (read_lines filename) [
  | none ↦ none
  | some lines ↦ some (add_includes lines includes)
]

-- Each header of the list that belongs to the file's module is read: whether one was, and the includes.
unfoldable pub read_headers :
    (Text → Option (List Text)) → Text → List Text → Bool × List Text → Bool × List Text
read_headers read_lines abs_filename [] (header_found, includes) = (header_found, includes)
read_headers read_lines abs_filename (header ∷ headers) (header_found, includes) =
    let (same_module, common_path) = files_belong_to_same_module abs_filename header in
    read_headers read_lines abs_filename headers (
      if same_module
      then (elim (update_include_state read_lines (common_path ++ header) includes) [
        | none ↦ (header_found, includes)
        | some known ↦ (true, known)
      ])
      else (header_found, includes))

abbrev is_quote : ℕ → Bool
is_quote c = c == b'<' || c == b'>' || c == b'"'

unfoldable pub strip_quotes : Text → Text
strip_quotes [] = []
strip_quotes (c ∷ s) = let rest = strip_quotes s in if is_quote c then rest else c ∷ s

-- `header.strip('<>"')`
unfoldable pub bare_header : Text → Text
bare_header header = reverse (strip_quotes (reverse (strip_quotes header)))

unfoldable pub report_missing : List Text → Text → Handler → Text × (ℕ × Text) → Action
report_missing includes filename error (header, (linenum, template)) =
    when (not (member (bare_header header) includes)) (
      error filename linenum (text "build/include_what_you_use") 4
        ((text "Add #include ") ++ (header ++ ((text " for ") ++ template))))

unfoldable pub included : List (List (Text × ℕ)) → List Text
included [] = []
included (section ∷ sections) = map (λ (header, linenum). header) section ++ included sections

unfoldable pub check_for_include_what_you_use :
    FileSystem
    → (Text → Option (List Text))
    → Text
    → CleansedLines
    → IncludeState
    → Handler
    → Action
check_for_include_what_you_use fs read_lines filename clean_lines include_state error =
    let headers : List Text = included include_state.include_list in
    let abs_filename : Text =
      replace_all (re "_flymake\\.cc$") (text ".cc") (full_name fs filename) in
    let found_in : Bool × List Text =
      read_headers read_lines abs_filename headers (false, headers) in
    when (not (ends_with filename (text ".cc") && not found_in.0))
      (each (report_missing found_in.1 filename error) (require_lines clean_lines.elided 0 []))
