-- ===== src/Lint/Nesting/Update.antt =====
-- `NestingState.Update` of scripts/cpplint.py: the state after one more line. The loops over a line
-- run on fuel, one more than what is left of the line.
pub mod Template
use epiphany_bsp.Base.{
  ℕ, zero, suc, ◌+◌, Bool, true, false, not, ◌&&◌, ◌||◌, Option, none, some, List, [], ◌∷◌, ◌++◌,
  length, drop, get_or, ◌==◌, if◌then◌else◌,
}
use epiphany_bsp.Base.Int.{ℤ, sub_ℕ, ◌+ℤ◌, is_number}
use epiphany_bsp.Base.Text.{Text, text, equal, count, contains, find}
use epiphany_bsp.Regex.{
  Regex, Found, ◌⊙◌, ◌⊕◌, line_start, line_end, spaces, space, star, plus, opt, one, lit, any_of,
  one_of, none_of, any_char, word, char, is_word, boundary, group, match, matches, group_of,
  group_text, is_found,
}
use epiphany_bsp.Base.{leb}
use epiphany_bsp.Base.Text.{is_space}
use epiphany_bsp.Lint.Report.{Globals, Handler}
use epiphany_bsp.Lint.Cleanse.{CleansedLines}
use epiphany_bsp.Lint.Block.{
  Block, Kind, block_info, extern_c_info, class_info, ClassInfo, InlineAsm, no_asm, inside_asm,
  end_asm, block_asm, new_block, new_class, new_namespace, check_begin, check_end, blank_line,
  class_parent,
}
use epiphany_bsp.Lint.Nesting.{NestingState, top, seen_open_brace, update_preprocessor}
use Template.{in_template_argument_list}

-- r'^\s*(?:asm|_asm|__asm|__asm__)(?:\s+(volatile|__volatile__))?\s*[{(]'
unfoldable pub match_asm : Regex
match_asm =
    line_start
    ⊙ spaces
    ⊙ any_of ("asm" ∷ "_asm" ∷ "__asm" ∷ "__asm__" ∷ [])
    ⊙ opt (plus space ⊙ group 1 (any_of ("volatile" ∷ "__volatile__" ∷ [])))
    ⊙ spaces
    ⊙ one_of "{("

abbrev pub push : Block → NestingState → NestingState
push b s = record s { stack = b ∷ s.stack; next_id = s.next_id + 1 }

abbrev pub change_top : (Block → Block) → NestingState → NestingState
change_top f s = record s { stack = elim s.stack [ [] ↦ [] | b ∷ rest ↦ f b ∷ rest ] }

abbrev pub pop : NestingState → NestingState
pop s = record s { stack = elim s.stack [ [] ↦ [] | b ∷ rest ↦ rest ] }

-- the inline assembly state after a line; the flags are "the line enters a block" and "no
-- parenthesis is open"
unfoldable pub next_asm : InlineAsm → Bool → Bool → InlineAsm
next_asm no_asm enters closed = if enters then inside_asm else no_asm
next_asm end_asm enters closed = if enters then inside_asm else no_asm
next_asm inside_asm enters closed = if closed then end_asm else inside_asm
next_asm block_asm enters closed = block_asm

-- the count of parentheses of the innermost block, and its inline assembly state
unfoldable pub count_parentheses : Text → Block → Block
unfolding next_asm match_asm
count_parentheses line b =
    let depth_change = sub_ℕ (count line (text "(")) (count line (text ")")) in
    let open_parentheses = b.open_parentheses +ℤ depth_change in
    record b {
      open_parentheses = open_parentheses;
      inline_asm =
          next_asm b.inline_asm
            (not (is_number 0 depth_change)
              && (is_number 1 open_parentheses && matches match_asm line))
            (is_number 0 open_parentheses);
    }

-- r'^\s*namespace\b\s*([:\w]+)?(.*)$'
unfoldable pub namespace_decl : Regex
namespace_decl =
    line_start
    ⊙ spaces
    ⊙ lit "namespace"
    ⊙ boundary
    ⊙ spaces
    ⊙ opt (group 1 (plus (char (λ c. c == b':' || is_word c))))
    ⊙ group 2 (star any_char)
    ⊙ line_end

abbrev pub see_brace : Block → Block
see_brace b = record b { seen_open_brace = true }

-- One namespace declaration at the beginning of the line: the state, and what is left of the line.
unfoldable pub push_namespace : ℕ → Found → NestingState → NestingState × Text
push_namespace linenum m s =
    let b = new_namespace s.next_id (group_of 1 m.groups) linenum in
    let rest = group_text 2 m in
    elim (find rest (text "{")) [
      | none ↦ (push b s, rest)
      | some brace ↦ (push (see_brace b) s, drop (brace + 1) rest)
    ]

unfoldable pub consume_namespaces : ℕ → ℕ → NestingState → Text → NestingState × Text
unfolding push_namespace namespace_decl
consume_namespaces zero linenum s line = (s, line)
consume_namespaces (suc f) linenum s line = elim (match namespace_decl line) [
  | none ↦ (s, line)
  | some m ↦ let (s', rest) = push_namespace linenum m s in consume_namespaces f linenum s' rest
]

-- r'[\w\s<>,:]'
unfoldable pub template_char : Regex
template_char =
    char (λ c. is_word c || is_space c || c == b'<' || c == b'>' || c == b',' || c == b':')

-- r'^(\s*(?:template\s*<[\w\s<>,:]*>\s*)?(class|struct)\s+(?:[A-Z_]+\s+)*(\w+(?:::\w+)*))(.*)$'
unfoldable pub class_decl : Regex
unfolding template_char
class_decl =
    line_start
    ⊙ group 1 (
        spaces
        ⊙ opt (lit "template" ⊙ spaces ⊙ one b'<' ⊙ star template_char ⊙ one b'>' ⊙ spaces)
        ⊙ group 2 (any_of ("class" ∷ "struct" ∷ []))
        ⊙ plus space
        ⊙ star (plus (char (λ c. (leb 65 c && leb c 90) || c == b'_')) ⊙ plus space)
        ⊙ group 3 (plus word ⊙ star (lit "::" ⊙ plus word)))
    ⊙ group 4 (star any_char)
    ⊙ line_end

abbrev pub no_parenthesis : NestingState → Bool
no_parenthesis s = elim s.stack [ [] ↦ true | b ∷ rest ↦ is_number 0 b.open_parentheses ]

-- The class declaration in what is left of the line, if there is one.
unfoldable pub push_class : CleansedLines → ℕ → NestingState → Text → NestingState × Text
unfolding class_decl
push_class clean linenum s line = elim (match class_decl line) [
  | none ↦ (s, line)
  | some m ↦
      if no_parenthesis s
        && not (in_template_argument_list clean.elided linenum (length (group_text 1 m)))
      then (
        push (new_class s.next_id (group_text 3 m) (group_text 2 m) clean linenum) s,
        group_text 4 m,
      )
      else (s, line)
]

-- the checks at the beginning of a block whose brace has not been seen
unfoldable pub begin_block : CleansedLines → ℕ → NestingState → NestingState
begin_block clean linenum s =
    if seen_open_brace s then s else change_top (check_begin clean linenum) s

-- r'^(.*)\b(public|private|protected|signals)(\s+(?:slots\s*)?)?:(?:[^:]|$)'
unfoldable pub access_pattern : Regex
access_pattern =
    line_start
    ⊙ group 1 (star any_char)
    ⊙ boundary
    ⊙ group 2 (any_of ("public" ∷ "private" ∷ "protected" ∷ "signals" ∷ []))
    ⊙ opt (group 3 (plus space ⊙ opt (lit "slots" ⊙ spaces)))
    ⊙ one b':'
    ⊙ (none_of ":" ⊕ line_end)

unfoldable pub report_access : Handler → Text → ℕ → ClassInfo → Found → Globals → Globals
report_access report filename linenum c m g =
    let indent = group_text 1 m in
    if not (length indent == c.class_indent + 1) && matches blank_line indent
    then report filename linenum (text "whitespace/indent") 3
        (group_text 2 m
          ++ (group_text 3 m ++ (text ": should be indented +1 space inside " ++ class_parent c)))
        g
    else g

-- the access specifier of the innermost block, if that is a class
unfoldable pub update_access :
    Handler → Text → ℕ → Text → NestingState × Globals → NestingState × Globals
unfolding report_access access_pattern
update_access report filename linenum line (s, g) = elim (top s) [
  | none ↦ (s, g)
  | some b ↦ elim b.kind [
    | class_info c ↦ elim (match access_pattern line) [
      | none ↦ (s, g)
      | some m ↦ (
        change_top (λ b. record b { kind = class_info (record c { access = group_text 2 m }) }) s,
        report_access report filename linenum c m g,
      )
    ]
    | _ ↦ (s, g)
  ]
]

-- r'^[^{;)}]*([{;)}])(.*)$'
unfoldable pub brace_or_semicolon : Regex
brace_or_semicolon =
    line_start
    ⊙ star (none_of "{;)}")
    ⊙ group 1 (one_of "{;)}")
    ⊙ group 2 (star any_char)
    ⊙ line_end

-- r'^extern\s*"[^"]*"\s*\{'
unfoldable pub extern_c : Regex
extern_c =
    line_start
    ⊙ lit "extern"
    ⊙ spaces
    ⊙ one b'"'
    ⊙ star (none_of "\"")
    ⊙ one b'"'
    ⊙ spaces
    ⊙ one b'{'

-- the branch at `{`
unfoldable pub open_brace : Text → NestingState → NestingState
unfolding extern_c match_asm
open_brace line s =
    if not (seen_open_brace s)
    then change_top see_brace s
    else if matches extern_c line
    then push (new_block s.next_id extern_c_info true false) s
    else let b = new_block s.next_id block_info true false in
      (push (record b { inline_asm = if matches match_asm line then block_asm else no_asm }) s)

-- the branch at `}`
unfoldable pub close_brace :
    Handler → Text → CleansedLines → ℕ → NestingState × Globals → NestingState × Globals
close_brace report filename clean linenum (s, g) = elim (top s) [
  | none ↦ (s, g)
  | some b ↦ (pop s, check_end report filename clean linenum b g)
]

unfoldable pub at_token :
    Handler
    → Text
    → CleansedLines
    → ℕ
    → Text
    → Text
    → NestingState × Globals
    → NestingState × Globals
unfolding open_brace close_brace
at_token report filename clean linenum token line (s, g) =
    if equal token (text "{")
    then (open_brace line s, g)
    else if equal token (text ";") || equal token (text ")")
    then (if seen_open_brace s then s else pop s, g)
    else close_brace report filename clean linenum (s, g)

unfoldable pub consume_braces :
    ℕ → Handler → Text → CleansedLines → ℕ → Text → NestingState × Globals → NestingState × Globals
unfolding brace_or_semicolon
consume_braces zero report filename clean linenum line sg = sg
consume_braces (suc f) report filename clean linenum line sg =
    elim (match brace_or_semicolon line) [
      | none ↦ sg
      | some m ↦
          consume_braces f report filename clean linenum (group_text 2 m)
            (at_token report filename clean linenum (group_text 1 m) line sg)
    ]

unfoldable pub remember_top : NestingState → NestingState
remember_top s = record s { previous_stack_top = top s }

-- the state before the braces are read, and what is left of the line then
unfoldable pub read_declarations : CleansedLines → ℕ → NestingState → NestingState × Text
unfolding consume_namespaces push_class begin_block remember_top count_parentheses
read_declarations clean linenum s =
    let line = get_or clean.elided linenum [] in
    let s₁ = change_top (count_parentheses line) (update_preprocessor line (remember_top s)) in
    let (s₂, line₂) = consume_namespaces (suc (length line)) linenum s₁ line in
    let (s₃, line₃) = push_class clean linenum s₂ line₂ in (begin_block clean linenum s₃, line₃)

-- `Update`
unfoldable pub update :
    Handler → Text → CleansedLines → ℕ → NestingState × Globals → NestingState × Globals
unfolding read_declarations
update report filename clean linenum (s, g) =
    let (s', line) = read_declarations clean linenum s in
    consume_braces (suc (length line)) report filename clean linenum line
      (update_access report filename linenum line (s', g))
