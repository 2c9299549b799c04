-- ===== src/Lint/Block.antt =====
-- The blocks of code that the linter keeps on its stack: `_BlockInfo`, `_ExternCInfo`, `_ClassInfo`
-- and `_NamespaceInfo` of scripts/cpplint.py, with their checks at the beginning and at the end.
-- `id` stands for the identity of the object.
use epiphany_bsp.Base.{
  ℕ, zero, suc, ◌+◌, ◌-◌, Bool, true, false, not, ◌&&◌, ◌||◌, Option, none, some, List, [], ◌∷◌,
  ◌++◌, length, drop, get_or, ltb, ◌==◌, if◌then◌else◌,
}
use epiphany_bsp.Base.Int.{ℤ, pos, sub_ℕ, ◌+ℤ◌, is_number}
use epiphany_bsp.Base.Text.{Text, text, equal, count}
use epiphany_bsp.Regex.{
  Regex, ◌⊙◌, ◌⊕◌, line_start, line_end, star, plus, spaces, space, one, lit, codes, any_of, one_of,
  none_of, any_char, non_space, boundary, group, match, search_in, matches, occurs, group_text,
}
use epiphany_bsp.Lint.Cleanse.{CleansedLines}
use epiphany_bsp.Lint.Report.{Globals, Handler}

-- `_NO_ASM`, `_INSIDE_ASM`, `_END_ASM` and `_BLOCK_ASM`
pub data InlineAsm : Type 0 where
  no_asm inside_asm end_asm block_asm : InlineAsm

pub record ClassInfo : Type 0 where
  pub name : Text
  pub starting_linenum : ℕ
  pub is_derived : Bool
  pub access : Text
  pub is_struct : Bool
  pub class_indent : ℕ
  pub last_line : ℕ

pub record NamespaceInfo : Type 0 where
  pub name : Text
  pub starting_linenum : ℕ

-- the class of a block
pub data Kind : Type 0 where
  block_info extern_c_info : Kind
  class_info : ClassInfo → Kind
  namespace_info : NamespaceInfo → Kind

pub record Block : Type 0 where
  pub id : ℕ
  pub kind : Kind
  pub seen_open_brace : Bool
  pub open_parentheses : ℤ
  pub inline_asm : InlineAsm
  pub check_namespace_indentation : Bool

-- `_BlockInfo.__init__` with the fields that its subclasses set behind it
unfoldable pub new_block : ℕ → Kind → Bool → Bool → Block
new_block id kind seen_open_brace check = record {
  id = id;
  kind = kind;
  seen_open_brace = seen_open_brace;
  open_parentheses = pos 0;
  inline_asm = no_asm;
  check_namespace_indentation = check;
}

-- r'^( *)\S', and `GetIndentLevel`
unfoldable pub indent_pattern : Regex
indent_pattern = line_start ⊙ group 1 (star (one b' ')) ⊙ non_space

unfoldable pub get_indent_level : Text → ℕ
get_indent_level line = elim (match indent_pattern line) [
  | none ↦ 0
  | some m ↦ length (group_text 1 m)
]

-- The search for the last line of a class, from line `i` on: the first line at which as many braces
-- are closed as were opened, or 0.
unfoldable pub last_line_from : List Text → ℕ → ℤ → ℕ
last_line_from [] i depth = 0
last_line_from (line ∷ lines) i depth =
    let depth' = depth +ℤ sub_ℕ (count line (text "{")) (count line (text "}")) in
    if is_number 0 depth' then i else last_line_from lines (i + 1) depth'

-- `_ClassInfo.__init__`
unfoldable pub new_class : ℕ → Text → Text → CleansedLines → ℕ → Block
unfolding new_block get_indent_level last_line_from
new_class id name class_or_struct clean linenum =
    let is_struct = equal class_or_struct (text "struct") in
    new_block id
      (class_info (record {
        name = name;
        starting_linenum = linenum;
        is_derived = false;
        access = if is_struct then text "public" else text "private";
        is_struct = is_struct;
        class_indent = get_indent_level (get_or clean.raw_lines linenum []);
        last_line = last_line_from (drop linenum clean.elided) linenum (pos 0);
      }))
      false true

-- `_NamespaceInfo.__init__`; no name is the empty one
unfoldable pub new_namespace : ℕ → Option Text → ℕ → Block
unfolding new_block
new_namespace id name linenum =
    new_block id
      (namespace_info
        (record { name = elim name [ none ↦ [] | some n ↦ n ]; starting_linenum = linenum }))
      false true

-- '(^|[^:]):($|[^:])'
unfoldable pub bare_colon : Regex
bare_colon = (line_start ⊕ none_of ":") ⊙ one b':' ⊙ (line_end ⊕ none_of ":")

-- `CheckBegin`, which changes a class and no other block
unfoldable pub check_begin : CleansedLines → ℕ → Block → Block
unfolding bare_colon
check_begin clean linenum b = elim b.kind [
  | class_info c ↦
      if occurs bare_colon (get_or clean.elided linenum [])
      then record b { kind = class_info (record c { is_derived = true }) }
      else b
  | _ ↦ b
]

-- r'\b(DISALLOW_COPY_AND_ASSIGN|DISALLOW_IMPLICIT_CONSTRUCTORS)\(NAME\)'; a class's name holds only
-- word characters and colons
unfoldable pub disallow_macro : Text → Regex
disallow_macro name =
    boundary
    ⊙ group 1 (any_of ("DISALLOW_COPY_AND_ASSIGN" ∷ "DISALLOW_IMPLICIT_CONSTRUCTORS" ∷ []))
    ⊙ one b'('
    ⊙ codes name
    ⊙ one b')'

-- r'^\s*$'
unfoldable pub blank_line : Regex
blank_line = line_start ⊙ spaces ⊙ line_end

-- r'^( *)\}'
unfoldable pub closing_brace : Regex
closing_brace = line_start ⊙ group 1 (star (one b' ')) ⊙ one b'}'

-- `for i in xrange(linenum - 1, starting_linenum, -1)`, over the number of lines left
unfoldable pub check_disallow :
    ℕ → Handler → Text → ClassInfo → List Text → Bool → Globals → Globals
unfolding disallow_macro blank_line
check_disallow zero report filename c elided seen_last g = g
check_disallow (suc n) report filename c elided seen_last g =
    let i = c.starting_linenum + suc n in
    let line = get_or elided i [] in
    elim (search_in (disallow_macro c.name) line) [
      | some m ↦
          if seen_last
          then report filename i (text "readability/constructors") 3
              (group_text 1 m ++ text " should be the last thing in the class") g
          else g
      | none ↦
          check_disallow n report filename c elided (seen_last || not (matches blank_line line)) g
    ]

unfoldable pub class_parent : ClassInfo → Text
class_parent c = (if c.is_struct then text "struct " else text "class ") ++ c.name

-- `_ClassInfo.CheckEnd`
unfoldable pub check_end_class : Handler → Text → CleansedLines → ℕ → ClassInfo → Globals → Globals
unfolding check_disallow class_parent closing_brace
check_end_class report filename clean linenum c g =
    let g' =
      check_disallow (linenum - 1 - c.starting_linenum) report filename c clean.elided false g in
    elim (match closing_brace (get_or clean.elided linenum [])) [
      | none ↦ g'
      | some m ↦
          if length (group_text 1 m) == c.class_indent
          then g'
          else report filename linenum (text "whitespace/indent") 3
              (text "Closing brace should be aligned with beginning of " ++ class_parent c) g'
    ]

-- r'};*\s*(//|/\*).*\b', the beginning of three patterns
unfoldable pub brace_comment : Regex
brace_comment =
    one b'}' ⊙ star (one b';') ⊙ spaces ⊙ any_of ("//" ∷ "/*" ∷ []) ⊙ star any_char ⊙ boundary

-- r'[\*/\.\\\s]*$'
unfoldable pub comment_end : Regex
comment_end = star (one_of "*/.\\" ⊕ space) ⊙ line_end

-- r'}.*\b(namespace anonymous|anonymous namespace)\b'
unfoldable pub anonymous_comment : Regex
anonymous_comment =
    one b'}'
    ⊙ star any_char
    ⊙ boundary
    ⊙ any_of ("namespace anonymous" ∷ "anonymous namespace" ∷ [])
    ⊙ boundary

unfoldable pub named_end : Text → Regex
named_end name = brace_comment ⊙ lit "namespace" ⊙ plus space ⊙ codes name ⊙ comment_end

unfoldable pub anonymous_end : Regex
anonymous_end = brace_comment ⊙ lit "namespace" ⊙ comment_end

-- the message about a missing comment at the end of a namespace, if there is one
unfoldable pub namespace_message : NamespaceInfo → Text → Option Text
unfolding named_end anonymous_end
namespace_message n line = elim n.name [
  | c ∷ rest ↦
      if matches (named_end (c ∷ rest)) line
      then none
      else some
          (text "Namespace should be terminated with \"// namespace " ++ ((c ∷ rest) ++ text "\""))
  | [] ↦
      if matches anonymous_end line
      then none
      else if matches anonymous_comment line
      then some (
          text
            "Anonymous namespace should be terminated with \"// namespace\" or \"// anonymous namespace\"")
      else some (text "Anonymous namespace should be terminated with \"// namespace\"")
]

-- `_NamespaceInfo.CheckEnd`
unfoldable pub check_end_namespace :
    Handler → Text → CleansedLines → ℕ → NamespaceInfo → Globals → Globals
unfolding namespace_message brace_comment
check_end_namespace report filename clean linenum n g =
    let line = get_or clean.raw_lines linenum [] in
    if ltb (linenum - n.starting_linenum) 10
      && not (matches (brace_comment ⊙ lit "namespace" ⊙ boundary) line)
    then g
    else elim (namespace_message n line) [
      | none ↦ g
      | some message ↦ report filename linenum (text "readability/namespace") 5 message g
    ]

-- `CheckEnd`
unfoldable pub check_end : Handler → Text → CleansedLines → ℕ → Block → Globals → Globals
check_end report filename clean linenum b g = elim b.kind [
  | class_info c ↦ check_end_class report filename clean linenum c g
  | namespace_info n ↦ check_end_namespace report filename clean linenum n g
  | _ ↦ g
]

-- `IsBlockInfo`
unfoldable pub is_block_info : Block → Bool
is_block_info b = elim b.kind [ block_info ↦ true | _ ↦ false ]

abbrev pub is_class : Kind → Bool
is_class (class_info c) = true
is_class _ = false

abbrev pub is_namespace : Kind → Bool
is_namespace (namespace_info n) = true
is_namespace _ = false

abbrev pub is_extern_c : Kind → Bool
is_extern_c extern_c_info = true
is_extern_c _ = false
