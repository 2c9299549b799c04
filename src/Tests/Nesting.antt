-- ===== src/Tests/Nesting.antt =====
-- Blocks and conditionals.
use epiphany_bsp.Base.{◌≡◌, refl, true, false, List, ◌∷◌, drop}
use epiphany_bsp.Base.Text.{text}
use epiphany_bsp.Lint.Block.{Block, new_block, block_info}
use epiphany_bsp.Lint.Nesting
use epiphany_bsp.Lint.Nesting.{NestingState}
use epiphany_bsp.Lint.Nesting.Preprocessor.{
  Code, done, edit, conditional, part, no_part, run_code, first_parts,
  update_preprocessor-first_parts,
}

abbrev opened : List Block → List Block
opened stack = new_block 7 block_info true false ∷ stack

-- an opening brace in each branch, and one closing brace behind them
abbrev two_branches : Code
two_branches =
    conditional (text "#if A") (edit opened done)
      (part (text "# else") (edit opened (edit opened done)) no_part) (text "#endif")
      (edit (drop 1) done)

update_preprocessor-first_parts_example :
    run_code two_branches Nesting.initial
    ≡ record Nesting.initial { stack = first_parts two_branches (Nesting.initial.stack) }
unfolding Nesting.directive_of epiphany_bsp.Regex.match Nesting.opens_branch text
    Nesting.next_branch Nesting.ends_branch
update_preprocessor-first_parts_example =
    update_preprocessor-first_parts two_branches Nesting.initial
      (refl, tt, (refl, tt, tt), refl, tt)
