-- ===== src/Lint/Nesting/Preprocessor.antt =====
-- What a preprocessor conditional leaves of the stack of blocks.
use epiphany_bsp.Base.{◌≡◌, refl, ◌∙◌, ap, false, List, [], ◌∷◌, arith, if◌then◌else◌}
use epiphany_bsp.Base.Text.{Text}
use epiphany_bsp.Lint.Block.{Block}
use epiphany_bsp.Lint.Nesting.{
  NestingState, PreprocessorInfo, if_line, else_line, endif_line, directive_of, mark_else,
  update_preprocessor,
}

-- Code with conditionals: `edit` stands for what the lines between directives do to the stack, and
-- a conditional has its three kinds of directive lines, a first part and further parts.
mutual
  pub data Code : Type 0 where
    done : Code
    edit : (List Block → List Block) → Code → Code
    conditional : Text → Code → Parts → Text → Code → Code

  pub data Parts : Type 0 where
    no_part : Parts
    part : Text → Code → Parts → Parts

-- the lines of a conditional are the directives that they stand for
abbrev mutual
  pub IsCode : Code → Type 0
  IsCode done = Unit {0}
  IsCode (edit f rest) = IsCode rest
  IsCode (conditional if_text first parts end_text rest) =
      (directive_of if_text ≡ if_line)
      × IsCode first
      × IsParts parts
      × (directive_of end_text ≡ endif_line)
      × IsCode rest

  pub IsParts : Parts → Type 0
  IsParts no_part = Unit {0}
  IsParts (part else_text code rest) =
      (directive_of else_text ≡ else_line) × IsCode code × IsParts rest

-- What the linter does on the code: `UpdatePreprocessor` at each directive line.
abbrev mutual
  pub run_code : Code → NestingState → NestingState
  run_code done s = s
  run_code (edit f rest) s = run_code rest (record s { stack = f s.stack })
  run_code (conditional if_text first parts end_text rest) s = run_code rest (
      update_preprocessor end_text
        (run_parts parts (run_code first (update_preprocessor if_text s))))

  pub run_parts : Parts → NestingState → NestingState
  run_parts no_part s = s
  run_parts (part else_text code rest) s =
      run_parts rest (run_code code (update_preprocessor else_text s))

-- What the code does to the stack if only the first part of each conditional is read.
abbrev pub first_parts : Code → List Block → List Block
first_parts done stack = stack
first_parts (edit f rest) stack = first_parts rest (f stack)
first_parts (conditional if_text first parts end_text rest) stack =
    first_parts rest (first_parts first stack)

-- what `#endif` leaves on the stack
abbrev kept : PreprocessorInfo → List Block → List Block
kept p stack = if p.seen_else then p.stack_before_else else stack

abbrev state_with : NestingState → List Block → List PreprocessorInfo → NestingState
state_with s stack pp = record s { stack = stack; pp_stack = pp }

module _ (s : NestingState) where
  at_if_line :
      (line : Text)
      → directive_of line ≡ if_line
      → update_preprocessor line s
        ≡ state_with s s.stack (
            record { stack_before_if = s.stack; stack_before_else = []; seen_else = false }
            ∷ s.pp_stack)
  unfolding update_preprocessor
  at_if_line line e = rw e

  at_else_line :
      (line : Text) (stack : List Block) (p : PreprocessorInfo) (pp : List PreprocessorInfo)
      → directive_of line ≡ else_line
      → update_preprocessor line (state_with s stack (p ∷ pp))
        ≡ state_with s p.stack_before_if (mark_else stack p ∷ pp)
  unfolding update_preprocessor
  at_else_line line stack p pp e = rw e

  at_endif_line :
      (line : Text) (stack : List Block) (p : PreprocessorInfo) (pp : List PreprocessorInfo)
      → directive_of line ≡ endif_line
      → update_preprocessor line (state_with s stack (p ∷ pp)) ≡ state_with s (kept p stack) pp
  unfolding update_preprocessor
  at_endif_line line stack p pp e = rw e

kept-mark_else :
    (p : PreprocessorInfo) (stack other : List Block)
    → kept (mark_else stack p) other ≡ kept p stack
unfolding mark_else
kept-mark_else p stack other = ground arith

mutual
  run_code-first_parts :
      (c : Code) (s : NestingState)
      → IsCode c
      → run_code c s ≡ record s { stack = first_parts c s.stack }
  run_code-first_parts done s h = refl
  run_code-first_parts (edit f rest) s h =
      run_code-first_parts rest (record s { stack = f s.stack }) h
  run_code-first_parts (conditional if_text first parts end_text rest) s h = rw (
    at_if_line s if_text h.0,
    run_code-first_parts first _ h.1,
    run_parts-kept parts end_text s _ _ _ h.2 h.3,
    run_code-first_parts rest _ h.4,
  )

  run_parts-kept :
      (ps : Parts) (end_text : Text) (s : NestingState) (stack : List Block) (p : PreprocessorInfo)
      (pp : List PreprocessorInfo)
      → IsParts ps
      → directive_of end_text ≡ endif_line
      → update_preprocessor end_text (run_parts ps (state_with s stack (p ∷ pp)))
        ≡ state_with s (kept p stack) pp
  run_parts-kept no_part end_text s stack p pp h e = at_endif_line s end_text stack p pp e
  run_parts-kept (part else_text code rest) end_text s stack p pp h e =
      rw (at_else_line s else_text stack p pp h.0, run_code-first_parts code _ h.1)
        (run_parts-kept rest end_text s _ (mark_else stack p) pp h.2 e
          ∙ ap (λ t. state_with s t pp) (kept-mark_else p stack _))

-- Over code with nested conditionals, whose other lines change the stack of blocks in any way,
-- `UpdatePreprocessor` leaves the stack that comes of reading only the first part of each
-- conditional, with no conditional left open; what the parts behind `#else` and `#elif` do to the
-- stack is undone.
pub update_preprocessor-first_parts :
    (c : Code) (s : NestingState)
    → IsCode c
    → run_code c s ≡ record s { stack = first_parts c s.stack }
update_preprocessor-first_parts c s h = run_code-first_parts c s h
