-- ===== src/Linter/Unavailable.antt =====
-- src/linter/level2.rs: what is said when the linters cannot be used.
use mathlib.Core.List.{Memᴰ}
use nexus_intelli_core.Prelude.{
  Bool, true, false, List, [], Option, none, some, ◌∷◌, ◌≡◌, ◌⊎◌, refl, inl, inr, if◌then◌else◌,
}
use nexus_intelli_core.Prelude.Text.{Text, codes, text_eq}
use nexus_intelli_core.Registry.{FilePath}
use nexus_intelli_core.Linter.{LintDiagnostic}
use nexus_intelli_core.Linter.External.{
  Waited, too_late, no_such_file, CommandOutput, Outcome, fine, no_output, run_command, LintResult,
  with_notice, Messages, report,
}
use nexus_intelli_core.Linter.Documents.{parse_clippy_output, parse_eslint_output}
use nexus_intelli_core.Linter.Listings.{
  parse_mypy_output, parse_javac_output, parse_cppcheck_output,
}
use nexus_intelli_core.Linter.Captured.{parse_kotlinc_output, parse_dotnet_output}
use nexus_intelli_core.Linter.Runs.{linters_of}
use nexus_intelli_core.Linter.Level2.{
  Outside, Command, cargo_clippy, eslint, mypy, javac, ktlint, kotlinc, cppcheck, dotnet_build,
  then_report, report_stdout, report_both, run_clippy, run_eslint, run_mypy, run_javac, run_kotlinc,
  after_ktlint, run_ktlint, run_cppcheck, run_dotnet_project, run_dotnet_build, run_external,
  eslint_bin, clippy_messages, eslint_messages, mypy_messages, javac_messages, kotlinc_messages,
  cppcheck_messages, dotnet_messages,
}

-- No error: no result at all when there are no linters, and otherwise one notice under the name of one
-- of them.
pub data IsNotice (linters : List Text) : Outcome LintResult → Type 0 where
  silent :
      linters ≡ []
      → IsNotice linters (fine (record { diagnostics = []; sources = []; error_text = none }))
  notice :
      (source message rule_id : Text)
      → Memᴰ source linters
      → IsNotice linters (fine (with_notice source message rule_id))

-- The program is not there, or it did not end in time.
abbrev pub IsAbsent : Waited → Type 0
IsAbsent w = (w ≡ no_such_file) ⊎ (w ≡ too_late)

module _ {linters : List Text} (context : Text) (w : Waited) where
  absent :
      (f : CommandOutput → Outcome LintResult)
      → IsAbsent w
      → IsNotice linters (f (no_output false true))
      → IsNotice linters (f (no_output true false))
      → IsNotice linters (then_report context (run_command w) f)
  unfolding then_report run_command
  absent f (inl e) missing late = rw e missing
  absent f (inr e) missing late = rw e late

  stdout_absent :
      (m : Messages) (parse : Text → List LintDiagnostic)
      → Memᴰ m.source linters
      → IsAbsent w
      → IsNotice linters (then_report context (run_command w) (report_stdout m parse))
  unfolding report_stdout report
  stdout_absent m parse i h =
      absent _ h (notice m.source m.missing m.missing_id i) (notice m.source m.late m.late_id i)

  both_absent :
      (m : Messages) (parse : Text → List LintDiagnostic)
      → Memᴰ m.source linters
      → IsAbsent w
      → IsNotice linters (then_report context (run_command w) (report_both m parse))
  unfolding report_both report
  both_absent m parse i h =
      absent _ h (notice m.source m.missing m.missing_id i) (notice m.source m.late m.late_id i)

choose :
    (b : Bool) {ss ts : List Text} {x y : Outcome LintResult}
    → IsNotice ss x
    → IsNotice ts y
    → IsNotice (if b then ss else ts) (if b then x else y)
choose true h k = h
choose false h k = k

abbrev kotlin_linters : List Text
kotlin_linters = codes "ktlint" ∷ codes "kotlinc" ∷ []

module _ (o : Outside) (path root : FilePath) (h : (c : Command) → IsAbsent (o.wait c)) where
  run_clippy_absent : IsNotice (codes "clippy" ∷ []) (run_clippy o path root)
  unfolding run_clippy
  run_clippy_absent =
      stdout_absent _ _ clippy_messages (parse_clippy_output o.from_str path root) (Memᴰ.head refl)
        (h cargo_clippy)

  run_eslint_absent : IsNotice (codes "eslint" ∷ []) (run_eslint o path root)
  unfolding run_eslint
  run_eslint_absent =
      stdout_absent _ _ eslint_messages (parse_eslint_output o.from_str path root) (Memᴰ.head refl)
        (h (eslint (eslint_bin o path root)))

  run_mypy_absent : IsNotice (codes "mypy" ∷ []) (run_mypy o path root)
  unfolding run_mypy
  run_mypy_absent =
      stdout_absent _ _ mypy_messages (parse_mypy_output path root) (Memᴰ.head refl) (h mypy)

  run_javac_absent : IsNotice (codes "javac" ∷ []) (run_javac o path root)
  unfolding run_javac
  run_javac_absent =
      both_absent _ _ javac_messages (parse_javac_output path root) (Memᴰ.head refl) (h javac)

  run_cppcheck_absent : IsNotice (codes "cppcheck" ∷ []) (run_cppcheck o path root)
  unfolding run_cppcheck
  run_cppcheck_absent =
      both_absent _ _ cppcheck_messages (parse_cppcheck_output path root) (Memᴰ.head refl)
        (h cppcheck)

  run_kotlinc_absent : IsNotice kotlin_linters (run_kotlinc o path root)
  unfolding run_kotlinc
  run_kotlinc_absent =
      both_absent _ _ kotlinc_messages (parse_kotlinc_output o.patterns path root)
        (Memᴰ.tail (Memᴰ.head refl)) (h kotlinc)

  run_ktlint_absent : IsNotice kotlin_linters (run_ktlint o path root)
  unfolding run_ktlint after_ktlint report_both report
  run_ktlint_absent =
      absent _ _ _ (h ktlint) run_kotlinc_absent (
        notice (codes "ktlint") (codes "ktlint timed out") (codes "ktlint-timeout")
          (Memᴰ.head refl))

  dotnet_project_absent :
      (p : Option FilePath) → IsNotice (codes "dotnet" ∷ []) (run_dotnet_project o path root p)
  unfolding run_dotnet_project
  dotnet_project_absent none =
      notice (codes "dotnet") (codes "no .csproj or .sln found for C# linting")
        (codes "dotnet-project-missing") (Memᴰ.head refl)
  dotnet_project_absent (some p) =
      both_absent _ _ dotnet_messages (parse_dotnet_output o.patterns path root) (Memᴰ.head refl)
        (h (dotnet_build p))

  run_dotnet_absent : IsNotice (codes "dotnet" ∷ []) (run_dotnet_build o path root)
  unfolding run_dotnet_build
  run_dotnet_absent = dotnet_project_absent _

  -- When each program is missing or does not end in time, linting succeeds without an error in any
  -- language: with nothing when the language has no linter, and otherwise with one notice under the
  -- name of a linter of that language.
  pub run_external-IsNotice :
      (language : Text) → IsNotice (linters_of language) (run_external o path root language)
  unfolding run_external linters_of
  run_external-IsNotice language = choose (text_eq language (codes "rust")) run_clippy_absent (
      choose _ run_eslint_absent (
        choose (text_eq language (codes "python")) run_mypy_absent (
          choose (text_eq language (codes "java")) run_javac_absent (
            choose (text_eq language (codes "kotlin")) run_ktlint_absent (
              choose (text_eq language (codes "c")) run_cppcheck_absent
                (choose (text_eq language (codes "csharp")) run_dotnet_absent (silent refl)))))))
