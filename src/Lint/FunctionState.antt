-- ===== src/Lint/FunctionState.antt =====
-- `_FunctionState` of scripts/cpplint.py: the function whose body is being read, and its length.
pub mod Level
use epiphany_bsp.Base.{
  ℕ, zero, suc, ◌+◌, ◌*◌, ◌/◌, ◌^◌, Bool, true, false, Option, none, some, ◌++◌, [], ltb,
  if◌then◌else◌,
}
use epiphany_bsp.Base.Text.{Text, text, decimal}
use epiphany_bsp.Regex.{Regex, ◌⊙◌, one, any_of, matches}
use mathlib.Core.List.{◌∷◌}
use epiphany_bsp.Lint.Report.{Globals, Handler}

abbrev pub normal_trigger : ℕ
normal_trigger = 250

abbrev pub test_trigger : ℕ
test_trigger = 400

pub record FunctionState : Type 0 where
  pub in_a_function : Bool
  pub lines_in_function : ℕ
  pub current_function : Text

unfoldable pub initial : FunctionState
initial = record { in_a_function = false; lines_in_function = 0; current_function = [] }

unfoldable pub begin : Text → FunctionState → FunctionState
begin function_name s = record {
  in_a_function = true;
  lines_in_function = 0;
  current_function = function_name;
}

unfoldable pub count : FunctionState → FunctionState
count s = if s.in_a_function then record s { lines_in_function = s.lines_in_function + 1 } else s

-- r'T(EST|est)'
unfoldable pub test_pattern : Regex
test_pattern = one b'T' ⊙ any_of ("EST" ∷ "est" ∷ [])

unfoldable pub base_trigger : FunctionState → ℕ
base_trigger s = if matches test_pattern s.current_function then test_trigger else normal_trigger

-- `int(math.log(n, 2))` for `n > 0`: the logarithm rounded down, which the floating-point one is for
-- every value that the cap below lets through. The fuel is the number itself.
log2_from : ℕ → ℕ → ℕ
log2_from zero n = 0
log2_from (suc f) n = let more = suc (log2_from f (n / 2)) in if ltb n 2 then 0 else more

unfoldable pub log2 : ℕ → ℕ
unfolding log2_from
log2 n = log2_from n n

unfoldable pub cap_level : ℕ → ℕ
cap_level n = if ltb 5 n then 5 else n

-- the trigger at a verbosity level, and the level of the error, if there is one
unfoldable pub trigger : ℕ → FunctionState → ℕ
unfolding base_trigger
trigger verbose s = base_trigger s * 2 ^ verbose

unfoldable pub error_level : ℕ → FunctionState → Option ℕ
unfolding trigger cap_level
error_level verbose s =
    if ltb (trigger verbose s) s.lines_in_function
    then some (cap_level (log2 (s.lines_in_function / base_trigger s)))
    else none

unfoldable pub check : Handler → Text → ℕ → FunctionState → Globals → Globals
check report filename linenum s g = elim (error_level g.lint.verbose_level s) [
  | none ↦ g
  | some level ↦
      report filename linenum (text "readability/fn_size") level
        (text "Small and focused functions are preferred: "
          ++ (s.current_function
              ++ (text " has "
                  ++ (decimal s.lines_in_function
                      ++ (text " non-comment lines (error triggered by exceeding "
                          ++ (decimal (trigger g.lint.verbose_level s) ++ text " lines)."))))))
        g
]

unfoldable pub end_function : FunctionState → FunctionState
end_function s = record s { in_a_function = false }
