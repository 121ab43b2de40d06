-- ===== src/Linter/Pool.antt =====
-- src/linter/pool.rs: the results of both levels, sorted, and the cache of results. What the cache
-- has kept for a path comes from outside.
use nexus_intelli_core.Prelude.{
  Bool, true, false, ◌&&◌, ◌||◌, List, [], ◌∷◌, ◌++◌, Option, none, some, ltb, ◌==◌, if◌then◌else◌,
}
use nexus_intelli_core.Prelude.Text.{Text, codes}
use nexus_intelli_core.Registry.{FilePath}
use nexus_intelli_core.Linter.{info, LintDiagnostic, run_tree_sitter_checks}
use nexus_intelli_core.Linter.External.{Outcome, fine, failed, LintResult}
use nexus_intelli_core.Linter.Level2.{Outside, run_external}

-- Texts are compared byte by byte.
unfoldable pub text_before : Text → Text → Bool
text_before t [] = false
text_before [] (y ∷ s) = true
text_before (x ∷ t) (y ∷ s) = ltb x y || (x == y && text_before t s)

-- The order of the keys `(line, column, source)`.
unfoldable pub is_before : LintDiagnostic → LintDiagnostic → Bool
unfolding text_before
is_before a b =
    ltb a.line b.line
    || (a.line == b.line
        && (ltb a.column b.column || (a.column == b.column && text_before a.source b.source)))

-- `sort_by_key`, which is stable.
unfoldable pub insert_diagnostic : LintDiagnostic → List LintDiagnostic → List LintDiagnostic
unfolding is_before
insert_diagnostic d [] = d ∷ []
insert_diagnostic d (e ∷ ds) =
    let rest = insert_diagnostic d ds in if is_before e d then e ∷ rest else d ∷ e ∷ ds

unfoldable pub sort_diagnostics : List LintDiagnostic → List LintDiagnostic
unfolding insert_diagnostic
sort_diagnostics [] = []
sort_diagnostics (d ∷ ds) = insert_diagnostic d (sort_diagnostics ds)

unfoldable pub external_unavailable_notice : LintDiagnostic
external_unavailable_notice = record {
  line = 1;
  column = 1;
  severity = info;
  message = codes "external linters are disabled or unavailable";
  rule_id = some (codes "external-disabled");
  source = codes "lint";
}

-- What the external linter adds.
unfoldable pub added_diagnostics : Outcome LintResult → List LintDiagnostic
added_diagnostics (fine external) = external.diagnostics
added_diagnostics (failed e) = []

unfoldable pub added_sources : Outcome LintResult → List Text
added_sources (fine external) = external.sources
added_sources (failed e) = []

unfoldable pub added_error : Outcome LintResult → Option Text
added_error (fine external) = external.error_text
added_error (failed e) = some e

abbrev tree_sitter : List Text
tree_sitter = codes "tree-sitter" ∷ []

-- The text and the language of the file are those of its analysis. A permit may be refused.
unfoldable pub build_result :
    (enabled permit : Bool)
    → Outside
    → (path root : FilePath) → (source language : Text) → LintResult
unfolding run_tree_sitter_checks run_external added_diagnostics added_sources added_error
    sort_diagnostics external_unavailable_notice
build_result enabled permit o path root source language =
    let diagnostics = run_tree_sitter_checks source language in
    if enabled
    then (if permit
        then (let outcome = run_external o path root language in
            record {
              diagnostics = sort_diagnostics (diagnostics ++ added_diagnostics outcome);
              sources = codes "tree-sitter" ∷ added_sources outcome;
              error_text = added_error outcome;
            })
        else record {
          diagnostics = sort_diagnostics (diagnostics ++ (external_unavailable_notice ∷ []));
          sources = codes "tree-sitter" ∷ [];
          error_text = none;
        })
    else record {
      diagnostics = sort_diagnostics diagnostics;
      sources = codes "tree-sitter" ∷ [];
      error_text = none;
    }

-- The result, and what is put into the cache. The result is computed only where it is needed.
unfoldable pub get_or_schedule :
    (enabled : Bool) → Option LintResult → LintResult → LintResult × Option LintResult
get_or_schedule false cached built = (built, none)
get_or_schedule true (some kept) built = (kept, none)
get_or_schedule true none built = (built, some built)

unfoldable pub run_sync : (enabled : Bool) → LintResult → LintResult × Option LintResult
run_sync enabled built = (built, if enabled then some built else none)
