-- ===== src/Linter/External.antt =====
-- src/linter/level2.rs: what a run of an external linter gives, and what all the linters share.
use nexus_intelli_core.Prelude.{
  ℕ, suc, ◌^◌, Bool, true, false, List, [], ◌∷◌, ◌++◌, Option, none, some, any, ltb, ◌==◌,
  if◌then◌else◌,
}
use nexus_intelli_core.Prelude.Text.{Text, codes, text_eq}
use nexus_intelli_core.Prelude.Decimal.{to_dec, parse_usize}
use nexus_intelli_core.Transport.Bytes.{trim}
use nexus_intelli_core.Linter.{Severity, error, warning, info, LintDiagnostic}

-- An `i32`: the number, or one less than its negation.
pub data ExitCode : Type 0 where
  code below_zero : ℕ → ExitCode

abbrev pub minus_one : ExitCode
minus_one = below_zero 0

unfoldable pub exceeds_one : ExitCode → Bool
exceeds_one (code n) = ltb 1 n
exceeds_one (below_zero n) = false

unfoldable pub show_code : ExitCode → Text
show_code (code n) = to_dec n
show_code (below_zero n) = b'-' ∷ to_dec (suc n)

-- How the wait for a process ends: its output, the error of starting it, or the time-out.
pub data Waited : Type 0 where
  too_late no_such_file : Waited
  spawn_error : Text → Waited
  finished : (stdout stderr : Text) → Option ExitCode → Waited

pub record CommandOutput : Type 0 where
  pub stdout : Text
  pub stderr : Text
  pub exit_code : ExitCode
  pub timed_out : Bool
  pub not_found : Bool

pub data Outcome (A : Type 0) : Type 0 where
  fine : A → Outcome A
  failed : Text → Outcome A

unfoldable pub or_minus_one : Option ExitCode → ExitCode
or_minus_one none = minus_one
or_minus_one (some c) = c

abbrev pub no_output : Bool → Bool → CommandOutput
no_output late missing = record {
  stdout = [];
  stderr = [];
  exit_code = minus_one;
  timed_out = late;
  not_found = missing;
}

-- `run_command`, given how the wait ends.
unfoldable pub run_command : Waited → Outcome CommandOutput
unfolding or_minus_one
run_command too_late = fine (no_output true false)
run_command no_such_file = fine (no_output false true)
run_command (spawn_error e) = failed e
run_command (finished out err status) = fine (record {
  stdout = out;
  stderr = err;
  exit_code = or_minus_one status;
  timed_out = false;
  not_found = false;
})

pub record LintResult : Type 0 where
  pub diagnostics : List LintDiagnostic
  pub sources : List Text
  pub error_text : Option Text

unfoldable pub with_notice : (source message rule_id : Text) → LintResult
with_notice source message rule_id = record {
  diagnostics =
      record {
        line = 1;
        column = 1;
        severity = info;
        message = message;
        rule_id = some rule_id;
        source = source;
      }
      ∷ [];
  sources = source ∷ [];
  error_text = none;
}

unfoldable pub combine_streams : Text → Text → Text
combine_streams stdout stderr =
    if text_eq (trim stdout) []
    then (if text_eq (trim stderr) [] then [] else stderr)
    else (if text_eq (trim stderr) [] then stdout else stdout ++ b'\n' ∷ stderr)

unfoldable pub map_severity : Text → Severity
map_severity level =
    if text_eq level (codes "error")
    then error
    else if any (text_eq level) (
        codes "warning"
        ∷ codes "warn"
        ∷ codes "style"
        ∷ codes "performance"
        ∷ codes "portability"
        ∷ [])
    then warning
    else info

unfoldable pub map_eslint_severity : Option ℕ → Severity
map_eslint_severity none = warning
map_eslint_severity (some n) = if n == 2 then error else if n == 1 then warning else info

-- `parse::<u32>`.
unfoldable pub parse_u32 : Text → Option ℕ
parse_u32 t = elim (parse_usize t) [
  | none ↦ none
  | some n ↦ if ltb n (2 ^ 32) then some n else none
]

-- The messages of one linter.
pub record Messages : Type 0 where
  pub source : Text
  pub missing : Text
  pub missing_id : Text
  pub late : Text
  pub late_id : Text
  pub exited : Text

unfoldable pub exit_error : Messages → ExitCode → Text → Option Text
unfolding exceeds_one show_code
exit_error m c shown =
    if exceeds_one c
    then some (m.exited ++ codes " exited with status " ++ show_code c ++ codes ": " ++ shown)
    else none

-- What the linters do with an output that is there, its diagnostics being read already.
unfoldable pub report : Messages → CommandOutput → List LintDiagnostic → Text → LintResult
unfolding with_notice exit_error
report m output found shown =
    if output.not_found
    then with_notice m.source m.missing m.missing_id
    else if output.timed_out
    then with_notice m.source m.late m.late_id
    else record {
      diagnostics = found;
      sources = m.source ∷ [];
      error_text = exit_error m output.exit_code shown;
    }
