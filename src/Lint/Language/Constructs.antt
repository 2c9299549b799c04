-- ===== src/Lint/Language/Constructs.antt =====
-- `CheckForNonStandardConstructs` of scripts/cpplint.py, and the constructors that can be called with
-- one argument.
pub mod Arguments
use epiphany_bsp.Base.{
  Bool, List, Option, [], if◌then◌else◌, leb, length, ltb, none, not, some, suc, ℕ, ◌&&◌, ◌++◌, ◌-◌,
  ◌==◌, ◌||◌, ◌∷◌,
}
use epiphany_bsp.Base.Text.{Text, contains, count, equal, replace, split, unicode_strip, text}
use epiphany_bsp.Lint.Block.{Block, class_info}
use epiphany_bsp.Lint.Cleanse.{CleansedLines}
use epiphany_bsp.Lint.Nesting.{NestingState, seen_open_brace}
use epiphany_bsp.Lint.Report.{Handler}
use epiphany_bsp.Lint.Steps.{
  Action, branch, crash, for_some, line_at, on_option, split_all, when, ◌⨾◌,
}
use epiphany_bsp.Regex.{Regex, group_of, group_text, is_found, is_nil, match, matches, occurs}
use epiphany_bsp.Regex.Compile.{escape, pattern, re}

unfoldable pub type_name_pattern : Regex
type_name_pattern =
    (re
      "\\b(const|volatile|void|char|short|int|long|float|double|signed|unsigned|schar|u?int8|u?int16|u?int32|u?int64)\\s+(register|static|extern|typedef)\\b")

unfoldable pub check_formats : Text → Text → ℕ → Handler → Action
check_formats line filename linenum error =
    when (occurs (re "printf\\s*\\(.*\".*%[-+ ]?\\d*q") line) (
      error filename linenum (text "runtime/printf_format") 3
        (text "%q in format strings is deprecated.  Use %ll instead."))
    ⨾ when (occurs (re "printf\\s*\\(.*\".*%\\d+\\$") line) (
        error filename linenum (text "runtime/printf_format") 2
          (text "%N$ formats are unconventional.  Try rewriting to avoid them."))
    ⨾ when (occurs (re "(\"|\\').*\\\\(%|\\[|\\(|{)") (replace line (text "\\\\") [])) (
        error filename linenum (text "build/printf_format") 3
          (text "%, [, (, and { are undefined character escapes.  Unescape them."))

unfoldable pub check_constructs : Text → Text → ℕ → Handler → Action
check_constructs line filename linenum error =
    when (occurs type_name_pattern line) (
      error filename linenum (text "build/storage_class") 5
        (text "Storage class (static, extern, typedef, etc) should be first."))
    ⨾ when (matches (re "\\s*#\\s*endif\\s*[^/\\s]+") line) (
        error filename linenum (text "build/endif_comment") 5
          (text "Uncommented text after #endif is non-standard.  Use a comment."))
    ⨾ when (matches (re "\\s*class\\s+(\\w+\\s*::\\s*)+\\w+\\s*;") line) (
        error filename linenum (text "build/forward_decl") 5
          (text "Inner-style forward declarations are invalid.  Remove this line."))
    ⨾ when
        (occurs (re "(\\w+|[+-]?\\d+(\\.\\d*)?)\\s*(<|>)\\?=?\\s*(\\w+|[+-]?\\d+)(\\.\\d*)?") line)
        (error filename linenum (text "build/deprecated") 3
          (text ">? and <? (max and min) operators are non-standard and deprecated."))
    ⨾ when (occurs (re "^\\s*const\\s*string\\s*&\\s*\\w+\\s*;") line) (
        error filename linenum (text "runtime/member_string_references") 2 (
          (text "const string& members are dangerous. It is much better to use ")
          ++ (text "alternatives, such as pointers or simple constants.")))

-- an argument has more opening than closing brackets
unfoldable pub is_unbalanced : Text → Bool
is_unbalanced arg =
    ltb (count arg (text ">")) (count arg (text "<"))
    || ltb (count arg (text ")")) (count arg (text "("))

abbrev add_argument : Text → Option (List Text) → Option (List Text)
add_argument arg none = none
add_argument arg (some args) = some (arg ∷ args)

-- The pieces between commas, put together until the brackets of each are balanced; `none` where the
-- index of the piece to add is out of range.
unfoldable pub merge_args : Text → List Text → Option (List Text)
merge_args arg [] = if is_unbalanced arg then none else some (arg ∷ [])
merge_args arg (next ∷ pieces) =
    let longer = merge_args (arg ++ b',' ∷ next) pieces in
    let others = merge_args next pieces in
    if is_unbalanced arg then longer else add_argument arg others

unfoldable pub constructor_args : Text → Option (List Text)
constructor_args arguments =
    if is_nil arguments
    then some []
    else elim (split arguments b',') [ [] ↦ some [] | arg ∷ pieces ↦ merge_args arg pieces ]

unfoldable pub first_arg : List Text → Text
first_arg [] = []
first_arg (arg ∷ args) = arg

unfoldable pub is_noarg : List Text → Bool
is_noarg args =
    length args == 0 || (length args == 1 && equal (unicode_strip (first_arg args)) (text "void"))

unfoldable pub defaulted_args : List Text → ℕ
defaulted_args [] = 0
defaulted_args (arg ∷ args) =
    if contains arg (text "=") then suc (defaulted_args args) else defaulted_args args

unfoldable pub is_onearg : List Text → Bool
is_onearg args = not (is_noarg args) && leb (length args - 1) (defaulted_args args)

unfoldable pub copy_pattern : Text → Regex
copy_pattern name = pattern (
    (text "(const\\s+)?")
    ++ (escape name ++ (text "(\\s*<[^>]*>)?(\\s+const)?\\s*(?:<\\w+>\\s*)?&")))

unfoldable pub needs_explicit : Text → List Text → Bool
needs_explicit name args =
    is_onearg args
    && not (occurs (re "\\bstd\\s*::\\s*initializer_list\\b") (first_arg args))
    && not (matches (copy_pattern name) (unicode_strip (first_arg args)))

unfoldable pub check_explicit : Text → Bool → List Text → Text → ℕ → Handler → Action
check_explicit name is_marked_explicit args filename linenum error =
    branch (not is_marked_explicit && needs_explicit name args)
      (branch (ltb 0 (defaulted_args args))
        (error filename linenum (text "runtime/explicit") 5 (
          (text "Constructors callable with one argument ") ++ (text "should be marked explicit.")))
        (error filename linenum (text "runtime/explicit") 5
          (text "Single-parameter constructors should be marked explicit.")))
      (when (is_marked_explicit && not (is_onearg args)) (
        branch (is_noarg args)
          (error filename linenum (text "runtime/explicit") 5
            (text "Zero-parameter constructors should not be marked explicit."))
          (error filename linenum (text "runtime/explicit") 0 (
            (text "Constructors that require multiple arguments ")
            ++ (text "should not be marked explicit.")))))

unfoldable pub constructor_pattern : Text → Regex
constructor_pattern name = pattern (
    (text "\\s+(?:inline\\s+)?(explicit\\s+)?(?:inline\\s+)?")
    ++ (escape name ++ (text "\\s*\\(((?:[^()]|\\([^()]*\\))*)\\)")))

-- the name of the innermost class, where its brace has been seen
unfoldable pub open_class : List Block → Option Text
open_class [] = none
open_class (b ∷ bs) = elim b.kind [
  | class_info info ↦ if b.seen_open_brace then some info.name else none
  | _ ↦ open_class bs
]

-- what stands behind the last `::`
unfoldable pub base_name_of : List Text → Text
base_name_of [] = []
base_name_of (s ∷ []) = s
base_name_of (s ∷ t ∷ ts) = base_name_of (t ∷ ts)

unfoldable pub check_constructor : Text → Text → Text → ℕ → Handler → Action
check_constructor line class_name filename linenum error =
    let name : Text = base_name_of (split_all (length class_name) (re "::") class_name) in
    for_some (match (constructor_pattern name) line) (λ m.
      on_option (constructor_args (group_text 2 m)) crash
        (λ args. check_explicit name (is_found (group_of 1 m.groups)) args filename linenum error))

unfoldable pub check_for_non_standard_constructs :
    Text → CleansedLines → ℕ → NestingState → Handler → Action
check_for_non_standard_constructs filename clean_lines linenum nesting_state error =
    let line = line_at clean_lines.elided linenum in
    check_formats (line_at clean_lines.lines linenum) filename linenum error
    ⨾ check_constructs line filename linenum error
    ⨾ for_some (open_class nesting_state.stack)
        (λ class_name. check_constructor line class_name filename linenum error)
