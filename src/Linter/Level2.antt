-- ===== src/Linter/Level2.antt =====
-- src/linter/level2.rs: running the external linter of a language. How a process ends, which files
-- there are, and the readers of JSON and of patterns come from outside.
use nexus_intelli_core.Prelude.{
  Bool, ◌||◌, List, [], ◌∷◌, ◌++◌, Option, none, some, any, find, reverse, if◌then◌else◌,
}
use nexus_intelli_core.Prelude.Text.{Text, codes, text_eq}
use nexus_intelli_core.Json.{Value}
use nexus_intelli_core.Aliases.{pop}
use nexus_intelli_core.Registry.{FilePath, path_eq}
use nexus_intelli_core.DepsGraph.Relative.{path_text}
use nexus_intelli_core.Linter.{LintDiagnostic}
use nexus_intelli_core.Linter.External.{
  Waited, CommandOutput, Outcome, fine, failed, run_command, LintResult, with_notice,
  combine_streams, Messages, report,
}
use nexus_intelli_core.Linter.Documents.{parse_clippy_output, parse_eslint_output}
use nexus_intelli_core.Linter.Listings.{
  parse_mypy_output, parse_javac_output, parse_cppcheck_output,
}
use nexus_intelli_core.Linter.Captured.{
  Patterns, parse_ktlint_output, parse_kotlinc_output, parse_dotnet_output,
}

-- The processes that are started.
pub data Command : Type 0 where
  cargo_clippy mypy javac ktlint kotlinc cppcheck : Command
  eslint : (binary : Text) → Command
  dotnet_build : (project_file : FilePath) → Command

pub record Outside : Type 0 where
  pub wait : Command → Waited
  pub exists : FilePath → Bool
  pub read_dir : FilePath → Option (List FilePath)
  pub extension : FilePath → Text
  pub from_str : Text → Option Value
  pub patterns : Patterns

abbrev pub clippy_messages : Messages
clippy_messages = record {
  source = codes "clippy";
  missing = codes "cargo/clippy not found on PATH";
  missing_id = codes "clippy-unavailable";
  late = codes "cargo clippy timed out";
  late_id = codes "clippy-timeout";
  exited = codes "cargo clippy";
}

abbrev pub eslint_messages : Messages
eslint_messages = record {
  source = codes "eslint";
  missing = codes "eslint not found (global or local node_modules/.bin/eslint)";
  missing_id = codes "eslint-unavailable";
  late = codes "eslint timed out";
  late_id = codes "eslint-timeout";
  exited = codes "eslint";
}

abbrev pub mypy_messages : Messages
mypy_messages = record {
  source = codes "mypy";
  missing = codes "mypy not found on PATH";
  missing_id = codes "mypy-unavailable";
  late = codes "mypy timed out";
  late_id = codes "mypy-timeout";
  exited = codes "mypy";
}

abbrev pub javac_messages : Messages
javac_messages = record {
  source = codes "javac";
  missing = codes "javac not found on PATH";
  missing_id = codes "javac-unavailable";
  late = codes "javac timed out";
  late_id = codes "javac-timeout";
  exited = codes "javac";
}

-- The entry for a missing program is not used: kotlinc is tried then.
abbrev pub ktlint_messages : Messages
ktlint_messages = record {
  source = codes "ktlint";
  missing = [];
  missing_id = [];
  late = codes "ktlint timed out";
  late_id = codes "ktlint-timeout";
  exited = codes "ktlint";
}

abbrev pub kotlinc_messages : Messages
kotlinc_messages = record {
  source = codes "kotlinc";
  missing = codes "ktlint and kotlinc not found on PATH";
  missing_id = codes "kotlin-linters-unavailable";
  late = codes "kotlinc timed out";
  late_id = codes "kotlinc-timeout";
  exited = codes "kotlinc";
}

abbrev pub cppcheck_messages : Messages
cppcheck_messages = record {
  source = codes "cppcheck";
  missing = codes "cppcheck not found on PATH";
  missing_id = codes "cppcheck-unavailable";
  late = codes "cppcheck timed out";
  late_id = codes "cppcheck-timeout";
  exited = codes "cppcheck";
}

abbrev pub dotnet_messages : Messages
dotnet_messages = record {
  source = codes "dotnet";
  missing = codes "dotnet SDK not found on PATH";
  missing_id = codes "dotnet-unavailable";
  late = codes "dotnet build timed out";
  late_id = codes "dotnet-timeout";
  exited = codes "dotnet build";
}

-- `.context(...)?`, then what is done with the output.
unfoldable pub then_report :
    Text → Outcome CommandOutput → (CommandOutput → Outcome LintResult) → Outcome LintResult
then_report context (failed e) f = failed context
then_report context (fine output) f = f output

-- The linters that read the standard output, and show the standard error.
unfoldable pub report_stdout :
    Messages → (Text → List LintDiagnostic) → CommandOutput → Outcome LintResult
unfolding report
report_stdout m parse output = fine (report m output (parse output.stdout) output.stderr)

-- The linters that read and show both streams.
unfoldable pub report_both :
    Messages → (Text → List LintDiagnostic) → CommandOutput → Outcome LintResult
unfolding report combine_streams
report_both m parse output =
    let combined = combine_streams output.stdout output.stderr in
    fine (report m output (parse combined) combined)

abbrev pub local_eslint : FilePath → FilePath
local_eslint root = root ++ (codes "node_modules" ∷ codes ".bin" ∷ codes "eslint" ∷ [])

module _ (o : Outside) (path root : FilePath) where
  open o use {wait, exists, read_dir, extension, from_str, patterns}

  unfoldable pub run_clippy : Outcome LintResult
  unfolding run_command then_report report_stdout parse_clippy_output
  run_clippy =
      then_report (codes "failed to execute cargo clippy") (run_command (wait cargo_clippy))
        (report_stdout clippy_messages (parse_clippy_output from_str path root))

  unfoldable pub eslint_bin : Text
  unfolding path_text
  eslint_bin = if exists (local_eslint root) then path_text (local_eslint root) else codes "eslint"

  unfoldable pub run_eslint : Outcome LintResult
  unfolding run_command then_report report_stdout parse_eslint_output eslint_bin
  run_eslint =
      then_report (codes "failed to execute " ++ eslint_bin)
        (run_command (wait (eslint eslint_bin)))
        (report_stdout eslint_messages (parse_eslint_output from_str path root))

  unfoldable pub run_mypy : Outcome LintResult
  unfolding run_command then_report report_stdout parse_mypy_output
  run_mypy =
      then_report (codes "failed to execute mypy") (run_command (wait mypy))
        (report_stdout mypy_messages (parse_mypy_output path root))

  unfoldable pub run_javac : Outcome LintResult
  unfolding run_command then_report report_both parse_javac_output
  run_javac =
      then_report (codes "failed to execute javac") (run_command (wait javac))
        (report_both javac_messages (parse_javac_output path root))

  unfoldable pub run_kotlinc : Outcome LintResult
  unfolding run_command then_report report_both parse_kotlinc_output
  run_kotlinc =
      then_report (codes "failed to execute kotlinc") (run_command (wait kotlinc))
        (report_both kotlinc_messages (parse_kotlinc_output patterns path root))

  unfoldable pub after_ktlint : CommandOutput → Outcome LintResult
  unfolding run_kotlinc report_both parse_ktlint_output
  after_ktlint output =
      if output.not_found
      then run_kotlinc
      else report_both ktlint_messages (parse_ktlint_output patterns path root) output

  unfoldable pub run_ktlint : Outcome LintResult
  unfolding run_command then_report after_ktlint
  run_ktlint =
      then_report (codes "failed to execute ktlint") (run_command (wait ktlint)) after_ktlint

  unfoldable pub run_cppcheck : Outcome LintResult
  unfolding run_command then_report report_both parse_cppcheck_output
  run_cppcheck =
      then_report (codes "failed to execute cppcheck") (run_command (wait cppcheck))
        (report_both cppcheck_messages (parse_cppcheck_output path root))

  unfoldable pub find_project_file_in_dir : FilePath → Option FilePath
  find_project_file_in_dir dir = elim (read_dir dir) [
    | none ↦ none
    | some entries ↦
        find (λ p. text_eq (extension p) (codes "csproj") || text_eq (extension p) (codes "sln"))
          entries
  ]

  -- The loop over a directory and its parents, given by its names, the last first.
  unfoldable pub find_upwards : List Text → Option FilePath
  unfolding find_project_file_in_dir
  find_upwards [] = elim (find_project_file_in_dir []) [
    | some p ↦ some p
    | none ↦ if path_eq [] root then find_project_file_in_dir root else none
  ]
  find_upwards (name ∷ above) =
      let further = find_upwards above in
      let current = reverse (name ∷ above) in
      elim (find_project_file_in_dir current) [
        | some p ↦ some p
        | none ↦ if path_eq current root then find_project_file_in_dir root else further
      ]

  unfoldable pub find_nearest_project_file : Option FilePath
  unfolding find_upwards
  find_nearest_project_file = elim path [
    | [] ↦ none
    | p ∷ ps ↦ find_upwards (reverse (pop (p ∷ ps)))
  ]

  unfoldable pub run_dotnet_project : Option FilePath → Outcome LintResult
  unfolding run_command then_report report_both parse_dotnet_output with_notice
  run_dotnet_project none = fine (
      with_notice (codes "dotnet") (codes "no .csproj or .sln found for C# linting")
        (codes "dotnet-project-missing"))
  run_dotnet_project (some project_file) =
      then_report (codes "failed to execute dotnet build")
        (run_command (wait (dotnet_build project_file)))
        (report_both dotnet_messages (parse_dotnet_output patterns path root))

  unfoldable pub run_dotnet_build : Outcome LintResult
  unfolding run_dotnet_project find_nearest_project_file
  run_dotnet_build = run_dotnet_project find_nearest_project_file

  unfoldable pub run_external : Text → Outcome LintResult
  unfolding run_clippy run_eslint run_mypy run_javac run_ktlint run_cppcheck run_dotnet_build
  run_external language =
      if text_eq language (codes "rust")
      then run_clippy
      else if any (text_eq language) (codes "javascript" ∷ codes "typescript" ∷ codes "tsx" ∷ [])
      then run_eslint
      else if text_eq language (codes "python")
      then run_mypy
      else if text_eq language (codes "java")
      then run_javac
      else if text_eq language (codes "kotlin")
      then run_ktlint
      else if text_eq language (codes "c")
      then run_cppcheck
      else if text_eq language (codes "csharp")
      then run_dotnet_build
      else fine (record { diagnostics = []; sources = []; error_text = none })
