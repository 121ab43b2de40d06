-- ===== src/Linter/Sorted.antt =====
-- The order of the results of src/linter/pool.rs.
use mathlib.Core.List.{Permᴰ}
use mathlib.Core.List.Permᴰ
use nexus_intelli_core.Prelude.{Bool, true, false, List, [], ◌∷◌, ◌≡◌}
use nexus_intelli_core.Prelude.Text.{Text}
use nexus_intelli_core.Linter.{LintDiagnostic}
use nexus_intelli_core.Linter.External.{Outcome, LintResult}
use nexus_intelli_core.Linter.Pool.{is_before, external_unavailable_notice, added_diagnostics}

-- No diagnostic comes before the one that stands in front of it.
pub data IsSorted : List LintDiagnostic → Type 0 where
  empty : IsSorted []
  single : (d : LintDiagnostic) → IsSorted (d ∷ [])
  follows :
      {d e : LintDiagnostic} {ds : List LintDiagnostic}
      → is_before e d ≡ false
      → IsSorted (e ∷ ds)
      → IsSorted (d ∷ e ∷ ds)

-- What is added to the diagnostics of level 1.
unfoldable pub extra_diagnostics :
    (enabled permit : Bool) → Outcome LintResult → List LintDiagnostic
unfolding added_diagnostics
extra_diagnostics true true outcome = added_diagnostics outcome
extra_diagnostics true false outcome = external_unavailable_notice ∷ []
extra_diagnostics false permit outcome = []
