-- ===== src/Lint/FunctionState/Level.antt =====
-- The level of a function-size error against the verbosity level.
use native.Mathlib.Nat.{pow-suc}
use epiphany_bsp.Base.{
  ℕ, zero, suc, ◌+◌, ◌*◌, ◌/◌, ◌^◌, ◌≤◌, ◌<◌, ◌≡◌, inl, inr, true, false, none, some, All, length,
  arith, ltb, if◌then◌else◌, Bool-cases, Option-cases,
}
use epiphany_bsp.Base.Text.{Text, text}
use epiphany_bsp.Lint.State.Laws.{IsSigned}
use epiphany_bsp.Lint.Suppress.{is_error_suppressed_by_nolint}
use epiphany_bsp.Lint.Report.{Globals, error}
use epiphany_bsp.Lint.Report.Laws.{is_off, last_about, length-error}
use epiphany_bsp.Lint.FunctionState.{
  FunctionState, log2_from, log2, cap_level, base_trigger, trigger, error_level, check,
}

one-le-pow : (k : ℕ) → 1 ≤ 2 ^ k
one-le-pow zero = omega arith
one-le-pow (suc k) = omega (arith, pow-suc 2 k, one-le-pow k)

no_level :
    (verbose : ℕ) (s : FunctionState)
    → error_level verbose s ≡ none
    → ltb (trigger verbose s) s.lines_in_function ≡ false
unfolding error_level
no_level verbose s e = ground arith

some_level :
    (verbose : ℕ) (s : FunctionState) {level : ℕ}
    → error_level verbose s ≡ some level
    → ltb (trigger verbose s) s.lines_in_function ≡ true
unfolding error_level
some_level verbose s e = ground arith

log2_from-pow : (f v n : ℕ) → n ≤ f → 2 ^ v ≤ n → v ≤ log2_from f n
unfolding log2_from
log2_from-pow f zero n b h = omega arith
log2_from-pow zero (suc v) n b h = absurd (omega (arith, one-le-pow (suc v)))
log2_from-pow (suc f) (suc v) n b h =
    let e = pow-suc 2 v in
    let pos = one-le-pow v in
    ground (arith, log2_from-pow f v (n / 2) (omega (arith, e, pos)) (omega (arith, e)), e, pos)

base_trigger_pos : (s : FunctionState) → 250 ≤ base_trigger s
unfolding base_trigger
base_trigger_pos s = ground arith

quotient-le : (b p n : ℕ) → 1 ≤ b → b * p < n → p ≤ n / b
quotient-le b p n pos h = grind arith

cap_level_bounds : (v n : ℕ) → v ≤ 5 → v ≤ n → (v ≤ cap_level n) × (cap_level n ≤ 5)
unfolding cap_level
cap_level_bounds v n a b = ground arith

-- A function-size error is at most of level 5, and, for a verbosity of at most 5, never below the
-- verbosity level.
error_level_bounds :
    (verbose : ℕ) (s : FunctionState) {level : ℕ}
    → verbose ≤ 5
    → error_level verbose s ≡ some level
    → (verbose ≤ level) × (level ≤ 5)
unfolding error_level trigger log2
error_level_bounds verbose s le e =
    let n = s.lines_in_function / base_trigger s in
    elim (Bool-cases (ltb (base_trigger s * 2 ^ verbose) s.lines_in_function)) [
      | inl over ↦
          let q =
            quotient-le (base_trigger s) (2 ^ verbose) s.lines_in_function
              (omega (arith, base_trigger_pos s)) (ground arith) in
          ground (
            arith,
            cap_level_bounds verbose (log2_from n n) le (log2_from-pow n verbose n (omega arith) q),
          )
      | inr under ↦ ground arith
    ]

-- With `Error` as the handler and a verbosity of at most 5, the end of a function prints one line
-- exactly if the body is longer than its trigger, and none otherwise: no such error is lost for its
-- level. This is where every filter has a sign, no NOLINT comment suppresses the error and no filter
-- turns it off.
pub check-error :
    (filename : Text) (linenum : ℕ) (s : FunctionState) (g : Globals)
    → g.aborted ≡ false
    → All IsSigned g.lint.filters
    → g.lint.verbose_level ≤ 5
    → is_error_suppressed_by_nolint (text "readability/fn_size") linenum g.suppressions ≡ false
    → is_off false (last_about (text "readability/fn_size") g.lint.filters) ≡ false
    → length (check error filename linenum s g).stderr
      ≡ length g.stderr
        + (if ltb (trigger g.lint.verbose_level s) s.lines_in_function then 1 else 0)
unfolding check
check-error filename linenum s g live signed low open_line on =
    elim (Option-cases (error_level g.lint.verbose_level s)) [
      | inl e ↦ rw (e, check, no_level g.lint.verbose_level s e) (omega arith)
      | inr (level, e) ↦
          let high = (error_level_bounds g.lint.verbose_level s low e).0 in
          rw (e, check, some_level g.lint.verbose_level s e)
            (length-error
              (record {
                filename = filename;
                linenum = linenum;
                category = text "readability/fn_size";
                confidence = level;
                message = _;
              })
              g live signed (ground (arith, high, open_line, on)))
    ]
