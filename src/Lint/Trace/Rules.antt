-- ===== src/Lint/Trace/Rules.antt =====
-- The step relation of a run's globals: a report of an error in a known category, a NOLINT comment, an
-- exception that ends the run. An action is traced if it only takes such steps.
use epiphany_bsp.Base.{
  ℕ, ◌≡◌, refl, Bool, true, false, Option, none, some, List, [], ◌∷◌, leb, if◌then◌else◌,
}
use epiphany_bsp.Base.Text.{Text, text, equal, member}
use epiphany_bsp.Lint.Categories.{error_categories}
use epiphany_bsp.Lint.Suppress.{Suppressions, unknown_category}
use epiphany_bsp.Lint.Report.{Globals, error, parse_nolint_suppressions}
use epiphany_bsp.Lint.Steps.{Action, skip, ◌⨾◌, when, branch, for_some, on_option, each, crash}

pub data Trace : Globals → Globals → Type 0 where
  done : {g : Globals} → Trace g g
  report :
      {g : Globals} (filename : Text) (linenum : ℕ) (category : Text) (confidence : ℕ)
      (message : Text)
      → member category error_categories ≡ true
      → leb confidence 5 ≡ true
      → Trace g (error filename linenum category confidence message g)
  suppress : {g : Globals} (s : Suppressions) → Trace g (record g { suppressions = s })
  raise : {g : Globals} → Trace g (crash g)
  followed : {g h k : Globals} → Trace g h → Trace h k → Trace g k

-- every run of the action is such a sequence of steps
pub record IsTraced (f : Action) : Type 0 where
  pub at : (g : Globals) → Trace g (f g)

pub error-IsTraced :
    (filename : Text) (linenum : ℕ) (category : Text) (confidence : ℕ) (message : Text)
    → member category error_categories ≡ true
    → leb confidence 5 ≡ true
    → IsTraced (error filename linenum category confidence message)
error-IsTraced filename linenum category confidence message known low = record {
  at = λ g. report filename linenum category confidence message known low;
}

pub crash-IsTraced : IsTraced crash
crash-IsTraced = record { at = λ g. raise }

pub skip-IsTraced : IsTraced skip
unfolding skip
skip-IsTraced = record { at = λ g. done }

pub ⨾-IsTraced : (f h : Action) → IsTraced f → IsTraced h → IsTraced (f ⨾ h)
unfolding ◌⨾◌
⨾-IsTraced f h tf th = record { at = λ g. followed (tf.at g) (th.at (f g)) }

pub when-IsTraced : (b : Bool) (f : Action) → IsTraced f → IsTraced (when b f)
unfolding when
when-IsTraced true f t = record { at = t.at }
when-IsTraced false f t = record { at = λ g. done }

pub branch-IsTraced : (b : Bool) (f h : Action) → IsTraced f → IsTraced h → IsTraced (branch b f h)
unfolding branch
branch-IsTraced true f h tf th = record { at = tf.at }
branch-IsTraced false f h tf th = record { at = th.at }

module _ {ℓ} {A : Type ℓ} where
  pub for_some-IsTraced :
      (o : Option A) (f : A → Action) → ((x : A) → IsTraced (f x)) → IsTraced (for_some o f)
  unfolding for_some
  for_some-IsTraced none f t = record { at = λ g. done }
  for_some-IsTraced (some x) f t = record { at = (t x).at }

  pub on_option-IsTraced :
      (o : Option A) (f : Action) (h : A → Action)
      → IsTraced f
      → ((x : A) → IsTraced (h x))
      → IsTraced (on_option o f h)
  unfolding on_option
  on_option-IsTraced none f h tf th = record { at = tf.at }
  on_option-IsTraced (some x) f h tf th = record { at = (th x).at }

  pub each-IsTraced :
      (f : A → Action) (xs : List A) → ((x : A) → IsTraced (f x)) → IsTraced (each f xs)
  unfolding each
  each-IsTraced f [] t = record { at = λ g. done }
  each-IsTraced f (x ∷ xs) t = record {
    at = λ g. followed ((t x).at g) ((each-IsTraced f xs t).at (f x g));
  }

pub ruleset traced_rules = (
  error-IsTraced, crash-IsTraced, skip-IsTraced, ⨾-IsTraced, when-IsTraced, branch-IsTraced,
  for_some-IsTraced, on_option-IsTraced, each-IsTraced,
)

module _ {k : Globals} where
  pub if-Trace : (b : Bool) {g h : Globals} → Trace k g → Trace k h → Trace k (if b then g else h)
  if-Trace true t u = t
  if-Trace false t u = u

  pub option-Trace {ℓ} :
      {A : Type ℓ} (o : Option A) (g : Globals) (f : A → Globals)
      → Trace k g
      → ((x : A) → Trace k (f x))
      → Trace k (elim o [ none ↦ g | some x ↦ f x ])
  option-Trace none g f t u = t
  option-Trace (some x) g f t u = u x

  -- for what keeps a state beside the globals
  pub option-state-Trace {ℓ κ} :
      {A : Type ℓ} {S : Type κ} (o : Option A) (g : S × Globals) (f : A → S × Globals)
      → Trace k g.1
      → ((x : A) → Trace k (f x).1)
      → Trace k (elim o as (λ x. S × Globals) [ none ↦ g | some x ↦ f x ]).1
  option-state-Trace none g f t u = t
  option-state-Trace (some x) g f t u = u x

-- a further step behind those that have been taken
module _ {k g : Globals} where
  pub Trace-report :
      (filename : Text) (linenum : ℕ) (category : Text) (confidence : ℕ) (message : Text)
      → member category error_categories ≡ true
      → leb confidence 5 ≡ true
      → Trace k g
      → Trace k (error filename linenum category confidence message g)
  Trace-report filename linenum category confidence message known low t =
      followed t (report filename linenum category confidence message known low)

  pub Trace-action : (f : Action) → IsTraced f → Trace k g → Trace k (f g)
  Trace-action f t before = followed before (t.at g)

  pub parse_nolint_suppressions-Trace :
      (filename raw_line : Text) (linenum : ℕ)
      → Trace k g
      → Trace k (parse_nolint_suppressions filename raw_line linenum error g)
  unfolding parse_nolint_suppressions text equal error_categories
  parse_nolint_suppressions-Trace filename raw_line linenum t =
      option-Trace (unknown_category raw_line linenum) _ _ (followed t (suppress _))
        (λ category. Trace-report filename linenum _ 5 _ refl refl t)
