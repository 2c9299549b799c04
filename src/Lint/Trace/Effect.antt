-- ===== src/Lint/Trace/Effect.antt =====
-- What a run of such steps prints and counts, and what it leaves as it is.
use mathlib.Core.List.{append-nil, append_assoc}
use epiphany_bsp.Base.{
  ℕ, ◌+◌, ◌≡◌, refl, sym, ap, ◌∙◌, Bool, true, false, Option, none, some, List, [], ◌∷◌, ◌++◌, All,
  arith, length, length-append, leb, All-append, if◌then◌else◌,
}
use epiphany_bsp.Base.Text.{Text, member}
use epiphany_bsp.Lint.State.{CppLintState, OutputFormat, increment_error_count}
use epiphany_bsp.Lint.Categories.{error_categories}
use epiphany_bsp.Lint.Report.{Globals, error, log_error, error_line, should_print_error}
use epiphany_bsp.Lint.Steps.{crash}
use epiphany_bsp.Lint.Style.Width.{Settings}
use epiphany_bsp.Lint.Driver.Data.{process_file_data}
use epiphany_bsp.Lint.Trace.Rules.{Trace, done, report, suppress, raise, followed}
use epiphany_bsp.Lint.Trace.Run.{process_file_data-Trace}

-- A line that `Error` prints for a category of `_ERROR_CATEGORIES` and a confidence of at most 5.
pub record IsFinding (format : OutputFormat) (line : Text) : Type 0 where
  filename : Text
  linenum : ℕ
  category : Text
  confidence : ℕ
  message : Text
  is_known : member category error_categories ≡ true
  is_low : leb confidence 5 ≡ true
  is_line : line ≡ error_line format filename linenum category confidence message

-- the settings of the reports
pub record Agrees (s t : CppLintState) : Type 0 where
  pub filters : t.filters ≡ s.filters
  pub filters_backup : t.filters_backup ≡ s.filters_backup
  pub verbose_level : t.verbose_level ≡ s.verbose_level
  pub output_format : t.output_format ≡ s.output_format

-- `lines` is what the run prints
pub record Prints (lines : List Text) (g h : Globals) : Type 0 where
  pub stderr : h.stderr ≡ g.stderr ++ lines
  pub error_count : h.lint.error_count ≡ g.lint.error_count + length lines
  pub findings : All (IsFinding g.lint.output_format) lines
  pub agrees : Agrees g.lint h.lint

-- The run prints some lines, and only findings, and counts them.
pub record Effect (g h : Globals) : Type 0 where
  pub lines : List Text
  pub prints : Prints lines g h

quiet : {g h : Globals} → h.stderr ≡ g.stderr → h.lint ≡ g.lint → Effect g h
quiet {g} {h} e l = record {
  lines = [];
  prints = record {
    stderr = e ∙ sym (append-nil g.stderr);
    error_count = omega (arith, ap (λ s. s.error_count) l);
    findings = tt;
    agrees = record {
      filters = ap (λ s. s.filters) l;
      filters_backup = ap (λ s. s.filters_backup) l;
      verbose_level = ap (λ s. s.verbose_level) l;
      output_format = ap (λ s. s.output_format) l;
    };
  };
}

-- a line that is printed, or nothing
module _ (filename : Text) (linenum : ℕ) (category : Text) (confidence : ℕ) (message : Text)
    (known : member category error_categories ≡ true) (low : leb confidence 5 ≡ true) where
  log_error-Effect :
      (g : Globals) → Effect g (log_error filename linenum category confidence message g)
  unfolding log_error increment_error_count
  log_error-Effect g = record {
    lines = error_line g.lint.output_format filename linenum category confidence message ∷ [];
    prints = record {
      stderr = refl;
      error_count = ground arith;
      findings = (
        record {
          filename = filename;
          linenum = linenum;
          category = category;
          confidence = confidence;
          message = message;
          is_known = known;
          is_low = low;
          is_line = refl;
        },
        tt,
      );
      agrees = record {
        filters = refl;
        filters_backup = refl;
        verbose_level = refl;
        output_format = refl;
      };
    };
  }

  decided-Effect :
      (g : Globals) (aborted : Bool) (o : Option Bool)
      → Effect g (
          if aborted then g else elim o [
            | none ↦ record g { aborted = true }
            | some true ↦ log_error filename linenum category confidence message g
            | some false ↦ g
          ])
  decided-Effect g true o = quiet refl refl
  decided-Effect g false none = quiet refl refl
  decided-Effect g false (some true) = log_error-Effect g
  decided-Effect g false (some false) = quiet refl refl

  error-Effect : (g : Globals) → Effect g (error filename linenum category confidence message g)
  unfolding error
  error-Effect g = decided-Effect g g.aborted (should_print_error category confidence linenum g)

Effect-trans : {g h k : Globals} → Effect g h → Effect h k → Effect g k
Effect-trans {g} {h} {k} a b =
    let p = a.prints in
    let q = b.prints in
    record {
      lines = a.lines ++ b.lines;
      prints = record {
        stderr = q.stderr ∙ (rw p.stderr (append_assoc g.stderr a.lines b.lines));
        error_count = omega (arith, p.error_count, q.error_count, length-append a.lines b.lines);
        findings =
            All-append (IsFinding g.lint.output_format) a.lines b.lines p.findings
              (rw (← p.agrees.output_format) q.findings);
        agrees = record {
          filters = q.agrees.filters ∙ p.agrees.filters;
          filters_backup = q.agrees.filters_backup ∙ p.agrees.filters_backup;
          verbose_level = q.agrees.verbose_level ∙ p.agrees.verbose_level;
          output_format = q.agrees.output_format ∙ p.agrees.output_format;
        };
      };
    }

pub Trace-Effect : {g h : Globals} → Trace g h → Effect g h
unfolding crash
Trace-Effect done = quiet refl refl
Trace-Effect (report {g} filename linenum category confidence message known low) =
    error-Effect filename linenum category confidence message known low g
Trace-Effect (suppress s) = quiet refl refl
Trace-Effect raise = quiet refl refl
Trace-Effect (followed t u) = Effect-trans (Trace-Effect t) (Trace-Effect u)

-- For every file, whatever its lines, its name and its settings: what `ProcessFileData` appends to the
-- error stream are lines of `Error`, each with a category of `_ERROR_CATEGORIES` and a confidence of at
-- most 5; the error count grows by their number, and the filters, their copy, the verbosity and the
-- output format stay as they were.
pub process_file_data-Effect :
    (settings : Settings) (read_lines : Text → Option (List Text)) (filename file_extension : Text)
    (file_lines : List Text) (g : Globals)
    → Effect g (process_file_data settings read_lines filename file_extension file_lines error g)
process_file_data-Effect settings read_lines filename file_extension file_lines g =
    Trace-Effect (process_file_data-Trace settings read_lines filename file_extension file_lines g)
