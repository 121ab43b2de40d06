-- ===== src/Linter/Listings.antt =====
-- src/linter/level2.rs: the linters whose lines are split at their colons.
use nexus_intelli_core.Prelude.{
  ℕ, zero, suc, ◌+◌, ◌-◌, ◌&&◌, ◌||◌, List, [], ◌∷◌, ◌++◌, length, take, drop, Option, none, some,
  ltb, if◌then◌else◌,
}
use nexus_intelli_core.Prelude.Text.{Text, codes, text_eq}
use nexus_intelli_core.Json.Access.{unwrap_or}
use nexus_intelli_core.Transport.Bytes.{trim, trim_end, split_once}
use nexus_intelli_core.Aliases.{text_ends_with}
use nexus_intelli_core.Registry.{FilePath}
use nexus_intelli_core.Privacy.Bodies.{rfind_byte}
use nexus_intelli_core.Linter.{Severity, LintDiagnostic, lines}
use nexus_intelli_core.Linter.External.{map_severity, parse_u32}
use nexus_intelli_core.Linter.Targets.{path_matches_target}

-- `splitn` at colons: at most one piece more than the number given.
unfoldable pub split_colons : ℕ → Text → List Text
unfolding split_once
split_colons zero t = t ∷ []
split_colons (suc n) t = elim (split_once b':' t) [
  | none ↦ t ∷ []
  | some (piece, rest) ↦ piece ∷ split_colons n rest
]

-- `parts.next().unwrap_or_default().trim()`, the pieces counted from 0.
unfoldable pub part : ℕ → List Text → Text
unfolding trim
part n [] = []
part zero (p ∷ ps) = trim p
part (suc n) (p ∷ ps) = part n ps

-- A severity, a message and a rule.
pub record Finding : Type 0 where
  pub severity : Severity
  pub message : Text
  pub rule_id : Option Text

unfoldable pub split_rule : Severity → Text → Option ℕ → Finding
unfolding text_ends_with trim_end
split_rule s t none = record { severity = s; message = t; rule_id = none }
split_rule s t (some start) =
    if text_ends_with t (codes "]") && ltb 0 start
    then record {
      severity = s;
      message = trim_end (take start t);
      rule_id = some (take (length t - 1 - (start + 1)) (drop (start + 1) t));
    }
    else record { severity = s; message = t; rule_id = none }

unfoldable pub parse_mypy_rest : Text → Option Finding
unfolding split_rule split_once trim rfind_byte map_severity
parse_mypy_rest rest = elim (split_once b':' rest) [
  | none ↦ none
  | some (level, message_part) ↦
      let message_trimmed = trim message_part in
      some
        (split_rule (map_severity (trim level)) message_trimmed (rfind_byte b'[' message_trimmed))
]

unfoldable pub mypy_finding : ℕ → ℕ → Option Finding → List LintDiagnostic
mypy_finding line_num column none = []
mypy_finding line_num column (some f) =
    record {
      line = line_num;
      column = column;
      severity = f.severity;
      message = f.message;
      rule_id = f.rule_id;
      source = codes "mypy";
    }
    ∷ []

unfoldable pub mypy_parts : ℕ → Text → Text → List LintDiagnostic
unfolding mypy_finding parse_mypy_rest parse_u32
mypy_parts line_num col_or_level rest = elim (parse_u32 col_or_level) [
  | some col_num ↦ mypy_finding line_num col_num (parse_mypy_rest rest)
  | none ↦ mypy_finding line_num 1 (parse_mypy_rest (col_or_level ++ codes ": " ++ rest))
]

unfoldable pub javac_diagnostic : Option ℕ → Text → Text → List LintDiagnostic
unfolding map_severity
javac_diagnostic none level message = []
javac_diagnostic (some line_num) level message =
    if text_eq level (codes "error") || text_eq level (codes "warning")
    then record {
      line = line_num;
      column = 1;
      severity = map_severity level;
      message = message;
      rule_id = some (codes "javac-" ++ level);
      source = codes "javac";
    }
      ∷ []
    else []

unfoldable pub cppcheck_diagnostic : Option ℕ → List Text → List LintDiagnostic
unfolding map_severity parse_u32 part
cppcheck_diagnostic none parts = []
cppcheck_diagnostic (some line_num) parts =
    record {
      line = line_num;
      column = unwrap_or (parse_u32 (part 2 parts)) 1;
      severity = map_severity (part 3 parts);
      message = part 5 parts;
      rule_id = if text_eq (part 4 parts) [] then none else some (part 4 parts);
      source = codes "cppcheck";
    }
    ∷ []

module _ (target root : FilePath) where
  unfoldable pub mypy_line : Text → List LintDiagnostic
  unfolding mypy_parts path_matches_target split_colons part parse_u32
  mypy_line line =
      let parts = split_colons 3 line in
      if path_matches_target (part 0 parts) target root
      then mypy_parts (unwrap_or (parse_u32 (part 1 parts)) 1) (part 2 parts) (part 3 parts)
      else []

  unfoldable pub javac_line : Text → List LintDiagnostic
  unfolding javac_diagnostic path_matches_target split_colons part parse_u32
  javac_line line =
      let parts = split_colons 3 line in
      if path_matches_target (part 0 parts) target root
      then javac_diagnostic (parse_u32 (part 1 parts)) (part 2 parts) (part 3 parts)
      else []

  unfoldable pub cppcheck_line : Text → List LintDiagnostic
  unfolding cppcheck_diagnostic path_matches_target split_colons part parse_u32
  cppcheck_line line =
      let parts = split_colons 5 line in
      if path_matches_target (part 0 parts) target root
      then cppcheck_diagnostic (parse_u32 (part 1 parts)) parts
      else []

-- The loop over the lines of an output.
unfoldable pub each_line : (Text → List LintDiagnostic) → List Text → List LintDiagnostic
each_line f [] = []
each_line f (line ∷ ls) = f line ++ each_line f ls

module _ (target root : FilePath) where
  unfoldable pub parse_mypy_output : Text → List LintDiagnostic
  unfolding each_line mypy_line lines
  parse_mypy_output stdout = each_line (mypy_line target root) (lines stdout)

  unfoldable pub parse_javac_output : Text → List LintDiagnostic
  unfolding each_line javac_line lines
  parse_javac_output stdout = each_line (javac_line target root) (lines stdout)

  unfoldable pub parse_cppcheck_output : Text → List LintDiagnostic
  unfolding each_line cppcheck_line lines
  parse_cppcheck_output stdout = each_line (cppcheck_line target root) (lines stdout)
