-- ===== src/Lint/NamespaceIndent.antt =====
-- The indentation of a block directly inside a namespace in scripts/cpplint.py, with the tests of a
-- line that it uses.
use epiphany_bsp.Base.{
  ℕ, ◌-◌, Bool, false, not, ◌&&◌, ◌||◌, none, some, List, [], ◌∷◌, get_or, all, ltb, ◌==◌,
  if◌then◌else◌,
}
use epiphany_bsp.Base.Text.{Text, text, is_unicode_space}
use epiphany_bsp.Regex.{
  ◌⊙◌, lit, one, any_char, star, plus, space, spaces, word, line_start, line_end, boundary, matches,
  occurs,
}
use epiphany_bsp.Lint.Report.{Globals, Handler}
use epiphany_bsp.Lint.Cleanse.{CleansedLines}
use epiphany_bsp.Lint.Block.{Block, is_namespace}
use epiphany_bsp.Lint.Nesting.{NestingState}

unfoldable pub is_blank_line : Text → Bool
is_blank_line line = all is_unicode_space line

unfoldable pub is_macro_definition : List Text → ℕ → Bool
is_macro_definition lines linenum =
    occurs (line_start ⊙ lit "#define") (get_or lines linenum [])
    || (ltb 0 linenum && occurs (one b'\\' ⊙ line_end) (get_or lines (linenum - 1) []))

-- r'^\s*(\btemplate\b)*.*class\s+\w+;\s*$'
unfoldable pub is_forward_class_declaration : List Text → ℕ → Bool
is_forward_class_declaration lines linenum =
    matches
      (line_start
        ⊙ spaces
        ⊙ star (boundary ⊙ lit "template" ⊙ boundary)
        ⊙ star any_char
        ⊙ lit "class"
        ⊙ plus space
        ⊙ plus word
        ⊙ one b';'
        ⊙ spaces
        ⊙ line_end)
      (get_or lines linenum [])

-- on a stack with its top first
unfoldable pub is_block_in_name_space : List Block → Bool → Bool
is_block_in_name_space [] is_forward_declaration = false
is_block_in_name_space (b ∷ []) is_forward_declaration =
    is_forward_declaration && is_namespace b.kind
is_block_in_name_space (b ∷ c ∷ stack) is_forward_declaration =
    if is_forward_declaration
    then is_namespace b.kind
    else b.check_namespace_indentation && is_namespace c.kind

unfoldable pub should_check_namespace_indentation : NestingState → Bool → List Text → ℕ → Bool
should_check_namespace_indentation nesting_state is_namespace_indent_item lines linenum =
    let is_forward_declaration = is_forward_class_declaration lines linenum in
    (is_namespace_indent_item || is_forward_declaration)
    && not (is_macro_definition lines linenum)
    && is_block_in_name_space nesting_state.stack is_forward_declaration

unfoldable pub check_item_indentation_in_namespace :
    Text → List Text → ℕ → Handler → Globals → Globals
check_item_indentation_in_namespace filename lines linenum error g =
    if matches (line_start ⊙ plus space) (get_or lines linenum [])
    then error filename linenum (text "runtime/indentation_namespace") 4
        (text "Do not indent within a namespace") g
    else g

-- whether the block below the top is the one that was on top before the line, a namespace
unfoldable pub is_namespace_indent_item : NestingState → Bool
is_namespace_indent_item s = elim s.stack [
  | [] ↦ false
  | b ∷ below ↦ elim below [
    | [] ↦ false
    | c ∷ rest ↦ elim s.previous_stack_top [
      | none ↦ false
      | some p ↦ b.check_namespace_indentation && is_namespace p.kind && p.id == c.id
    ]
  ]
]

unfoldable pub check_for_namespace_indentation :
    Text → NestingState → CleansedLines → ℕ → Handler → Globals → Globals
check_for_namespace_indentation filename nesting_state clean_lines line error g =
    if should_check_namespace_indentation nesting_state (is_namespace_indent_item nesting_state)
      clean_lines.elided line
    then check_item_indentation_in_namespace filename clean_lines.elided line error g
    else g
