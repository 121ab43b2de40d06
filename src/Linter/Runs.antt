-- ===== src/Linter/Runs.antt =====
-- What every run of an external linter keeps to: src/linter/level2.rs.
use mathlib.Core.List.{Memᴰ}
use nexus_intelli_core.Prelude.{
  Bool, true, false, List, [], ◌∷◌, Option, none, some, any, ◌≡◌, ◌⊎◌, refl, inl, inr,
  if◌then◌else◌,
}
use nexus_intelli_core.Prelude.Text.{Text, codes, text_eq}
use nexus_intelli_core.Json.{as_array}
use nexus_intelli_core.Json.Access.{unwrap_or}
use nexus_intelli_core.Registry.{FilePath}
use nexus_intelli_core.Linter.{LintDiagnostic, lines}
use nexus_intelli_core.Linter.External.{
  Waited, too_late, no_such_file, spawn_error, finished, ExitCode, Outcome, fine, failed,
  run_command, LintResult, with_notice, combine_streams, Messages, report,
}
use nexus_intelli_core.Linter.Documents.{parse_clippy_output, parse_eslint_output}
use nexus_intelli_core.Linter.Listings.{
  parse_mypy_output, parse_javac_output, parse_cppcheck_output,
}
use nexus_intelli_core.Linter.Captured.{
  parse_ktlint_output, parse_kotlinc_output, parse_dotnet_output,
}
use nexus_intelli_core.Linter.Level2.{
  Outside, Command, cargo_clippy, eslint, mypy, javac, ktlint, kotlinc, cppcheck, dotnet_build,
  then_report, report_stdout, report_both, run_clippy, run_eslint, run_mypy, run_javac, run_kotlinc,
  after_ktlint, run_ktlint, run_cppcheck, run_dotnet_project, run_dotnet_build, run_external,
  eslint_bin, find_nearest_project_file, clippy_messages, eslint_messages, mypy_messages,
  javac_messages, kotlinc_messages, cppcheck_messages, dotnet_messages,
}
use nexus_intelli_core.Linter.Located.{
  AreLocated, from_option, clippy_lines-AreLocated, eslint_files-AreLocated,
}
use nexus_intelli_core.Linter.Reported.{
  mypy_output-AreLocated, javac_output-AreLocated, cppcheck_output-AreLocated,
  ktlint_output-AreLocated, dotnet_output-AreLocated, kotlinc_output-AreLocated,
}

-- The linters that a language has, by the names that they report under.
unfoldable pub linters_of : Text → List Text
linters_of language =
    if text_eq language (codes "rust")
    then codes "clippy" ∷ []
    else if any (text_eq language) (codes "javascript" ∷ codes "typescript" ∷ codes "tsx" ∷ [])
    then codes "eslint" ∷ []
    else if text_eq language (codes "python")
    then codes "mypy" ∷ []
    else if text_eq language (codes "java")
    then codes "javac" ∷ []
    else if text_eq language (codes "kotlin")
    then codes "ktlint" ∷ codes "kotlinc" ∷ []
    else if text_eq language (codes "c")
    then codes "cppcheck" ∷ []
    else if text_eq language (codes "csharp")
    then codes "dotnet" ∷ []
    else []

module _ (o : Outside) (path root : FilePath) where
  open o use {wait, from_str, patterns}

  -- Which process runs a linter, and how the diagnostics are read in its standard output and error.
  pub data Reads : Text → Command → (Text → Text → List LintDiagnostic) → Type 0 where
    clippy_reads :
        Reads (codes "clippy") cargo_clippy (λ out err. parse_clippy_output from_str path root out)
    eslint_reads :
        Reads
          (codes "eslint")
          (eslint (eslint_bin o path root))
          (λ out err. parse_eslint_output from_str path root out)
    mypy_reads : Reads (codes "mypy") mypy (λ out err. parse_mypy_output path root out)
    javac_reads :
        Reads
          (codes "javac")
          javac
          (λ out err. parse_javac_output path root (combine_streams out err))
    ktlint_reads :
        Reads
          (codes "ktlint")
          ktlint
          (λ out err. parse_ktlint_output patterns path root (combine_streams out err))
    kotlinc_reads :
        Reads
          (codes "kotlinc")
          kotlinc
          (λ out err. parse_kotlinc_output patterns path root (combine_streams out err))
    cppcheck_reads :
        Reads
          (codes "cppcheck")
          cppcheck
          (λ out err. parse_cppcheck_output path root (combine_streams out err))
    dotnet_reads :
        (project_file : FilePath)
        → find_nearest_project_file o path root ≡ some project_file
        → Reads
            (codes "dotnet")
            (dotnet_build project_file)
            (λ out err. parse_dotnet_output patterns path root (combine_streams out err))

  -- How linting ends in a language with these linters: with nothing, when there are none; with all
  -- that the process of one of them wrote, read by its reader; with one notice that its process is
  -- missing or late, or that there is no project to build; or with an error because a process could
  -- not be started though its program is there.
  pub data IsComplete (linters : List Text) : Outcome LintResult → Type 0 where
    nothing :
        linters ≡ []
        → IsComplete linters (fine (record { diagnostics = []; sources = []; error_text = none }))
    read :
        {s : Text} {c : Command} {f : Text → Text → List LintDiagnostic} {r : LintResult}
        → Memᴰ s linters
        → Reads s c f
        → (out err : Text) (status : Option ExitCode) → wait c ≡ finished out err status
        → r.diagnostics ≡ f out err
        → r.sources ≡ s ∷ []
        → AreLocated s r.diagnostics
        → IsComplete linters (fine r)
    notice :
        {s : Text} {c : Command} {f : Text → Text → List LintDiagnostic}
        → Memᴰ s linters
        → Reads s c f
        → (message rule_id : Text) → (wait c ≡ no_such_file) ⊎ (wait c ≡ too_late)
        → IsComplete linters (fine (with_notice s message rule_id))
    no_project :
        Memᴰ (codes "dotnet") linters
        → find_nearest_project_file o path root ≡ none
        → (message rule_id : Text)
        → IsComplete linters (fine (with_notice (codes "dotnet") message rule_id))
    not_started :
        {s : Text} {c : Command} {f : Text → Text → List LintDiagnostic}
        → Memᴰ s linters
        → Reads s c f
        → (context e : Text) → wait c ≡ spawn_error e
        → IsComplete linters (failed context)

  module _ {linters : List Text} (context : Text) (m : Messages) (c : Command) where
    stdout-IsComplete :
        (parse : Text → List LintDiagnostic)
        → Memᴰ m.source linters
        → Reads m.source c (λ out err. parse out)
        → ((t : Text) → AreLocated m.source (parse t))
        → (w : Waited) → wait c ≡ w
        → IsComplete linters (then_report context (run_command w) (report_stdout m parse))
    unfolding then_report run_command report_stdout report
    stdout-IsComplete parse i r h too_late e = notice i r m.late m.late_id (inr e)
    stdout-IsComplete parse i r h no_such_file e = notice i r m.missing m.missing_id (inl e)
    stdout-IsComplete parse i r h (spawn_error t) e = not_started i r context t e
    stdout-IsComplete parse i r h (finished out err status) e =
        read i r out err status e refl refl (h out)

    both-IsComplete :
        (parse : Text → List LintDiagnostic)
        → Memᴰ m.source linters
        → Reads m.source c (λ out err. parse (combine_streams out err))
        → ((t : Text) → AreLocated m.source (parse t))
        → (w : Waited) → wait c ≡ w
        → IsComplete linters (then_report context (run_command w) (report_both m parse))
    unfolding then_report run_command report_both report
    both-IsComplete parse i r h too_late e = notice i r m.late m.late_id (inr e)
    both-IsComplete parse i r h no_such_file e = notice i r m.missing m.missing_id (inl e)
    both-IsComplete parse i r h (spawn_error t) e = not_started i r context t e
    both-IsComplete parse i r h (finished out err status) e =
        read i r out err status e refl refl (h (combine_streams out err))

  run_clippy-IsComplete : IsComplete (codes "clippy" ∷ []) (run_clippy o path root)
  unfolding run_clippy parse_clippy_output
  run_clippy-IsComplete =
      stdout-IsComplete _ clippy_messages cargo_clippy (parse_clippy_output from_str path root)
        (Memᴰ.head refl) clippy_reads (λ t. clippy_lines-AreLocated from_str path root (lines t))
        (wait cargo_clippy) refl

  run_eslint-IsComplete : IsComplete (codes "eslint" ∷ []) (run_eslint o path root)
  unfolding run_eslint parse_eslint_output
  run_eslint-IsComplete =
      let c = eslint (eslint_bin o path root) in
      stdout-IsComplete _ eslint_messages c (parse_eslint_output from_str path root)
        (Memᴰ.head refl) eslint_reads
        (λ t.
          from_option (codes "eslint") _ (from_str t)
            (λ v. eslint_files-AreLocated from_str path root (unwrap_or (as_array v) [])))
        (wait c) refl

  run_mypy-IsComplete : IsComplete (codes "mypy" ∷ []) (run_mypy o path root)
  unfolding run_mypy
  run_mypy-IsComplete =
      stdout-IsComplete _ mypy_messages mypy (parse_mypy_output path root) (Memᴰ.head refl)
        mypy_reads (mypy_output-AreLocated path root) (wait mypy) refl

  run_javac-IsComplete : IsComplete (codes "javac" ∷ []) (run_javac o path root)
  unfolding run_javac
  run_javac-IsComplete =
      both-IsComplete _ javac_messages javac (parse_javac_output path root) (Memᴰ.head refl)
        javac_reads (javac_output-AreLocated path root) (wait javac) refl

  run_cppcheck-IsComplete : IsComplete (codes "cppcheck" ∷ []) (run_cppcheck o path root)
  unfolding run_cppcheck
  run_cppcheck-IsComplete =
      both-IsComplete _ cppcheck_messages cppcheck (parse_cppcheck_output path root)
        (Memᴰ.head refl) cppcheck_reads (cppcheck_output-AreLocated path root) (wait cppcheck) refl

  abbrev kotlin_linters : List Text
  kotlin_linters = codes "ktlint" ∷ codes "kotlinc" ∷ []

  run_kotlinc-IsComplete : IsComplete kotlin_linters (run_kotlinc o path root)
  unfolding run_kotlinc
  run_kotlinc-IsComplete =
      both-IsComplete _ kotlinc_messages kotlinc (parse_kotlinc_output patterns path root)
        (Memᴰ.tail (Memᴰ.head refl)) kotlinc_reads (kotlinc_output-AreLocated path root patterns)
        (wait kotlinc) refl

  ktlint-IsComplete :
      (w : Waited)
      → wait ktlint ≡ w
      → IsComplete kotlin_linters (
          then_report (codes "failed to execute ktlint") (run_command w) (after_ktlint o path root))
  unfolding then_report run_command after_ktlint report_both report
  ktlint-IsComplete too_late e =
      notice (Memᴰ.head refl) ktlint_reads (codes "ktlint timed out") (codes "ktlint-timeout")
        (inr e)
  ktlint-IsComplete no_such_file e = run_kotlinc-IsComplete
  ktlint-IsComplete (spawn_error t) e =
      not_started (Memᴰ.head refl) ktlint_reads (codes "failed to execute ktlint") t e
  ktlint-IsComplete (finished out err status) e =
      read (Memᴰ.head refl) ktlint_reads out err status e refl refl
        (ktlint_output-AreLocated path root patterns (combine_streams out err))

  run_ktlint-IsComplete : IsComplete kotlin_linters (run_ktlint o path root)
  unfolding run_ktlint
  run_ktlint-IsComplete = ktlint-IsComplete (wait ktlint) refl

  dotnet_project-IsComplete :
      (p : Option FilePath)
      → find_nearest_project_file o path root ≡ p
      → IsComplete (codes "dotnet" ∷ []) (run_dotnet_project o path root p)
  unfolding run_dotnet_project
  dotnet_project-IsComplete none e = no_project (Memᴰ.head refl) e _ _
  dotnet_project-IsComplete (some p) e =
      both-IsComplete _ dotnet_messages (dotnet_build p) (parse_dotnet_output patterns path root)
        (Memᴰ.head refl) (dotnet_reads p e) (dotnet_output-AreLocated path root patterns)
        (wait (dotnet_build p)) refl

  run_dotnet-IsComplete : IsComplete (codes "dotnet" ∷ []) (run_dotnet_build o path root)
  unfolding run_dotnet_build
  run_dotnet-IsComplete = dotnet_project-IsComplete _ refl

  choose :
      (b : Bool) {ss ts : List Text} {x y : Outcome LintResult}
      → IsComplete ss x
      → IsComplete ts y
      → IsComplete (if b then ss else ts) (if b then x else y)
  choose true h k = h
  choose false h k = k

  -- Linting a language ends with nothing exactly when the language has no linter. Otherwise it ends
  -- with a report of one linter of the language: exactly what its reader finds in the output of its
  -- process, which ended, each diagnostic under the linter's name; or one notice under that name,
  -- when the process is missing or late or no project is found; or with an error, when a process of
  -- the language could not be started though its program is there.
  pub run_external-IsComplete :
      (language : Text) → IsComplete (linters_of language) (run_external o path root language)
  unfolding run_external linters_of
  run_external-IsComplete language =
      choose (text_eq language (codes "rust")) run_clippy-IsComplete (
        choose _ run_eslint-IsComplete (
          choose (text_eq language (codes "python")) run_mypy-IsComplete (
            choose (text_eq language (codes "java")) run_javac-IsComplete (
              choose (text_eq language (codes "kotlin")) run_ktlint-IsComplete (
                choose (text_eq language (codes "c")) run_cppcheck-IsComplete (
                  choose (text_eq language (codes "csharp")) run_dotnet-IsComplete
                    (nothing refl)))))))
