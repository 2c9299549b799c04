-- ===== src/Lint/Nesting.antt =====
-- `NestingState` of scripts/cpplint.py: the stack of open blocks, and what it was before the
-- preprocessor branches that are open. Stacks have their top first. A copy of the stack keeps the
-- blocks' `id`; `previous_stack_top` is read only for the block's class and identity, which no later
-- write changes.
pub mod Preprocessor
pub mod Update
use epiphany_bsp.Base.{
  ℕ, Bool, true, false, not, ◌&&◌, ◌||◌, Option, none, some, List, [], ◌∷◌, ◌++◌, if◌then◌else◌,
}
use mathlib.Core.List.{reverse}
use epiphany_bsp.Base.Text.{Text, text}
use epiphany_bsp.Regex.{
  Regex, ◌⊙◌, line_start, spaces, one, lit, any_of, boundary, matches, is_found,
}
use epiphany_bsp.Lint.Report.{Globals, Handler}
use epiphany_bsp.Lint.Block.{
  Block, Kind, class_info, namespace_info, ClassInfo, InlineAsm, no_asm, is_class, is_namespace,
  is_extern_c,
}

-- `_PreprocessorInfo`
pub record PreprocessorInfo : Type 0 where
  pub stack_before_if : List Block
  pub stack_before_else : List Block
  pub seen_else : Bool

pub record NestingState : Type 0 where
  pub stack : List Block
  pub previous_stack_top : Option Block
  pub pp_stack : List PreprocessorInfo
  -- the next block's identity
  pub next_id : ℕ

unfoldable pub initial : NestingState
initial = record { stack = []; previous_stack_top = none; pp_stack = []; next_id = 0 }

abbrev pub top : NestingState → Option Block
top s = elim s.stack [ [] ↦ none | b ∷ rest ↦ some b ]

abbrev pub top_is : (Block → Bool) → NestingState → Bool
top_is p s = elim s.stack [ [] ↦ false | b ∷ rest ↦ p b ]

unfoldable pub seen_open_brace : NestingState → Bool
seen_open_brace s = elim s.stack [ [] ↦ true | b ∷ rest ↦ b.seen_open_brace ]

unfoldable pub in_namespace_body : NestingState → Bool
in_namespace_body s = top_is (λ b. is_namespace b.kind) s

unfoldable pub in_extern_c : NestingState → Bool
in_extern_c s = top_is (λ b. is_extern_c b.kind) s

unfoldable pub in_class_declaration : NestingState → Bool
in_class_declaration s = top_is (λ b. is_class b.kind) s

abbrev pub is_asm : InlineAsm → Bool
is_asm no_asm = false
is_asm _ = true

unfoldable pub in_asm_block : NestingState → Bool
in_asm_block s = top_is (λ b. is_asm b.inline_asm) s

-- r'^\s*#\s*(…)\b'
unfoldable pub opens_branch : Regex
opens_branch =
    line_start ⊙ spaces ⊙ one b'#' ⊙ spaces ⊙ any_of ("if" ∷ "ifdef" ∷ "ifndef" ∷ []) ⊙ boundary

unfoldable pub next_branch : Regex
next_branch = line_start ⊙ spaces ⊙ one b'#' ⊙ spaces ⊙ any_of ("else" ∷ "elif" ∷ []) ⊙ boundary

unfoldable pub ends_branch : Regex
ends_branch = line_start ⊙ spaces ⊙ one b'#' ⊙ spaces ⊙ lit "endif" ⊙ boundary

-- what a line is to `UpdatePreprocessor`
pub data Directive : Type 0 where
  if_line else_line endif_line other_line : Directive

unfoldable pub directive_of : Text → Directive
directive_of line =
    if matches opens_branch line
    then if_line
    else if matches next_branch line
    then else_line
    else if matches ends_branch line
    then endif_line
    else other_line

-- the entry of the innermost branch at `#else` or `#elif`
unfoldable pub mark_else : List Block → PreprocessorInfo → PreprocessorInfo
mark_else stack p =
    if p.seen_else then p else record p { seen_else = true; stack_before_else = stack }

unfoldable pub at_if : NestingState → NestingState
at_if s = record s {
  pp_stack =
      record { stack_before_if = s.stack; stack_before_else = []; seen_else = false } ∷ s.pp_stack;
}

unfoldable pub at_else : NestingState → NestingState
unfolding mark_else
at_else s = elim s.pp_stack [
  | [] ↦ s
  | p ∷ rest ↦ record s { stack = p.stack_before_if; pp_stack = mark_else s.stack p ∷ rest }
]

unfoldable pub at_endif : NestingState → NestingState
at_endif s = elim s.pp_stack [
  | [] ↦ s
  | p ∷ rest ↦ record s {
    stack = if p.seen_else then p.stack_before_else else s.stack;
    pp_stack = rest;
  }
]

unfoldable pub at_directive : Directive → NestingState → NestingState
unfolding at_if at_else at_endif
at_directive if_line s = at_if s
at_directive else_line s = at_else s
at_directive endif_line s = at_endif s
at_directive other_line s = s

-- `UpdatePreprocessor`
unfoldable pub update_preprocessor : Text → NestingState → NestingState
unfolding at_directive
update_preprocessor line s = at_directive (directive_of line) s

-- `InnermostClass`
unfoldable pub first_class : List Block → Option ClassInfo
first_class [] = none
first_class (b ∷ rest) = elim b.kind [ class_info c ↦ some c | _ ↦ first_class rest ]

unfoldable pub innermost_class : NestingState → Option ClassInfo
unfolding first_class
innermost_class s = first_class s.stack

-- one round of the loop of `CheckCompletedBlocks`
unfoldable pub report_open_block : Handler → Text → Block → Globals → Globals
report_open_block report filename b g = elim b.kind [
  | class_info c ↦
      report filename c.starting_linenum (text "build/class") 5
        (text "Failed to find complete declaration of class " ++ c.name) g
  | namespace_info n ↦
      report filename n.starting_linenum (text "build/namespaces") 5
        (text "Failed to find complete declaration of namespace " ++ n.name) g
  | _ ↦ g
]

unfoldable pub report_open_blocks : Handler → Text → List Block → Globals → Globals
report_open_blocks report filename [] g = g
report_open_blocks report filename (b ∷ rest) g =
    report_open_blocks report filename rest (report_open_block report filename b g)

-- `CheckCompletedBlocks`: from the outermost block inwards
unfoldable pub check_completed_blocks : Handler → Text → NestingState → Globals → Globals
unfolding report_open_blocks
check_completed_blocks report filename s g = report_open_blocks report filename (reverse s.stack) g
