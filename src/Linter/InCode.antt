-- ===== src/Linter/InCode.antt =====
-- Where the rules of src/linter/level1.rs find their patterns.
use mathlib.Core.List.{Memᴰ}
use nexus_intelli_core.Prelude.{◌-◌, ◌≤◌, List, some, ◌≡◌}
use nexus_intelli_core.Prelude.Text.{Text}
use nexus_intelli_core.Linter.{Rule, LintDiagnostic}
use nexus_intelli_core.Linter.Scanned.{in_code, MatchesCode}

module _ (line language : Text) where
  -- A diagnostic that names a rule of the list, at a column from which on the line has the rule's
  -- pattern, blanks aside, outside of strings and comments.
  abbrev pub IsInCode : List Rule → LintDiagnostic → Type 0
  IsInCode rules d =
      (r : Rule) × (Memᴰ r rules
        × ((d.rule_id ≡ some r.rule_id)
            × ((1 ≤ d.column) × MatchesCode language in_code line (d.column - 1) r.pattern_text)))
