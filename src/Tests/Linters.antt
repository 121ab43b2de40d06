-- ===== src/Tests/Linters.antt =====
-- Runs of the external linters, each program of which ends in one way.
use nexus_intelli_core.Prelude.{true, false, [], ◌∷◌, none, some, ◌≡◌, refl, inr}
use nexus_intelli_core.Prelude.Text.{codes, text_eq, text_starts_with}
use nexus_intelli_core.Prelude.Decimal.{parse_usize}
use nexus_intelli_core.Aliases.{text_ends_with}
use nexus_intelli_core.DepsGraph.Relative.{path_text}
use nexus_intelli_core.Registry.{FilePath}
use nexus_intelli_core.Linter.{error}
use nexus_intelli_core.Linter.External.{Waited, too_late, finished, code, fine}
use nexus_intelli_core.Linter.Targets.{path_matches_target}
use nexus_intelli_core.Linter.Level2.{Outside, run_external}
use nexus_intelli_core.Linter.Runs.{linters_of, IsComplete, run_external-IsComplete}
use nexus_intelli_core.Linter.Unavailable.{IsNotice, run_external-IsNotice}

abbrev outside_with : Waited → Outside
outside_with w = record {
  wait = λ c. w;
  exists = λ p. false;
  read_dir = λ p. none;
  extension = λ p. [];
  from_str = λ t. none;
  patterns = record {
    ktlint_pattern = λ t. none;
    colon_pattern = λ t. none;
    prefixed_pattern = λ t. none;
    dotnet_pattern = λ t. none;
  };
}

abbrev workspace_root : FilePath
workspace_root = codes "w" ∷ []

abbrev lint_target : FilePath
lint_target = codes "w" ∷ codes "src" ∷ codes "lib.rs" ∷ []

abbrev mypy_says : Outside
mypy_says =
    outside_with (finished (codes "src/lib.rs:3:7: error: bad type [arg]") [] (some (code 1)))

-- The line of the report is read, with its place, its rule and its severity.
mypy_reads_line :
    run_external mypy_says lint_target workspace_root (codes "python")
    ≡ fine (record {
      diagnostics =
          record {
            line = 3;
            column = 7;
            severity = error;
            message = codes "bad type";
            rule_id = some (codes "arg");
            source = codes "mypy";
          }
          ∷ [];
      sources = codes "mypy" ∷ [];
      error_text = none;
    })
unfolding run_external text_eq text_starts_with parse_usize
mypy_reads_line = refl

-- A file of the same relative path in another directory is taken for the target.
other_crate : path_matches_target (codes "crates/b/src/lib.rs") lint_target workspace_root ≡ true
unfolding path_matches_target text_eq text_starts_with path_text text_ends_with
other_crate = refl

run_external-IsComplete_example :
    IsComplete mypy_says lint_target workspace_root
      (linters_of (codes "python"))
      (run_external mypy_says lint_target workspace_root (codes "python"))
run_external-IsComplete_example =
    run_external-IsComplete mypy_says lint_target workspace_root (codes "python")

run_external-IsNotice_example :
    IsNotice
      (linters_of (codes "kotlin"))
      (run_external (outside_with too_late) lint_target workspace_root (codes "kotlin"))
run_external-IsNotice_example =
    run_external-IsNotice (outside_with too_late) lint_target workspace_root (λ c. inr refl)
      (codes "kotlin")
