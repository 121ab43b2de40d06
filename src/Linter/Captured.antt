-- ===== src/Linter/Captured.antt =====
-- src/linter/level2.rs: the linters whose lines are read by regular expressions, which come from
-- outside with the groups they capture.
use nexus_intelli_core.Prelude.{ℕ, Bool, List, [], ◌∷◌, ◌++◌, Option, none, some, if◌then◌else◌}
use mathlib.Core.Option
use nexus_intelli_core.Prelude.Text.{Text, codes, text_starts_with}
use nexus_intelli_core.Json.Access.{◌>>=◌, unwrap_or}
use nexus_intelli_core.Transport.Bytes.{trim}
use nexus_intelli_core.Registry.{FilePath}
use nexus_intelli_core.Linter.{error, warning, LintDiagnostic, lines}
use nexus_intelli_core.Linter.External.{map_severity, parse_u32}
use nexus_intelli_core.Linter.Targets.{path_matches_target}
use nexus_intelli_core.Linter.Listings.{each_line}

-- The named groups of a match; a pattern without a group leaves it none.
pub record Groups : Type 0 where
  pub file : Option Text
  pub line_group : Option Text
  pub column_group : Option Text
  pub level : Option Text
  pub rule_or_code : Option Text
  pub message_group : Option Text

pub record Patterns : Type 0 where
  pub ktlint_pattern : Text → Option Groups
  pub colon_pattern : Text → Option Groups
  pub prefixed_pattern : Text → Option Groups
  pub dotnet_pattern : Text → Option Groups

unfoldable pub number_of : Option Text → ℕ
unfolding parse_u32
number_of g = unwrap_or (g >>= parse_u32) 1

unfoldable pub trimmed_or : Option Text → Text → Text
unfolding trim
trimmed_or none d = d
trimmed_or (some t) d = trim t

module _ (ps : Patterns) (target root : FilePath) where
  unfoldable pub is_about_target : Groups → Bool
  unfolding path_matches_target
  is_about_target caps = path_matches_target (unwrap_or caps.file []) target root

  unfoldable pub ktlint_line : Text → List LintDiagnostic
  unfolding is_about_target number_of trimmed_or trim
  ktlint_line line = elim (ps.ktlint_pattern (trim line)) [
    | none ↦ []
    | some caps ↦
        if is_about_target caps
        then record {
          line = number_of caps.line_group;
          column = number_of caps.column_group;
          severity = warning;
          message = trimmed_or caps.message_group (codes "ktlint finding");
          rule_id = Option.map trim caps.rule_or_code;
          source = codes "ktlint";
        }
          ∷ []
        else []
  ]

  unfoldable pub parse_ktlint_output : Text → List LintDiagnostic
  unfolding each_line ktlint_line lines
  parse_ktlint_output stdout = each_line ktlint_line (lines stdout)

  unfoldable pub kotlinc_colon : Groups → LintDiagnostic
  unfolding number_of trimmed_or map_severity
  kotlinc_colon caps =
      let level = unwrap_or caps.level (codes "warning") in
      record {
        line = number_of caps.line_group;
        column = number_of caps.column_group;
        severity = map_severity level;
        message = trimmed_or caps.message_group (codes "kotlinc finding");
        rule_id = some (codes "kotlinc-" ++ level);
        source = codes "kotlinc";
      }

  unfoldable pub kotlinc_prefixed : Text → Groups → LintDiagnostic
  unfolding number_of trimmed_or
  kotlinc_prefixed trimmed caps =
      let is_error = text_starts_with trimmed (codes "e:") in
      record {
        line = number_of caps.line_group;
        column = number_of caps.column_group;
        severity = if is_error then error else warning;
        message = trimmed_or caps.message_group (codes "kotlinc finding");
        rule_id = if is_error then some (codes "kotlinc-error") else some (codes "kotlinc-warning");
        source = codes "kotlinc";
      }

  -- One pattern's match.
  unfoldable pub when_about : Groups → LintDiagnostic → List LintDiagnostic
  unfolding is_about_target
  when_about caps d = if is_about_target caps then d ∷ [] else []

  unfoldable pub kotlinc_line : Text → List LintDiagnostic
  unfolding when_about kotlinc_colon kotlinc_prefixed trim
  kotlinc_line line =
      let trimmed = trim line in
      elim (ps.colon_pattern trimmed) [
        | some caps ↦ when_about caps (kotlinc_colon caps)
        | none ↦ elim (ps.prefixed_pattern trimmed) [
          | none ↦ []
          | some caps ↦ when_about caps (kotlinc_prefixed trimmed caps)
        ]
      ]

  unfoldable pub parse_kotlinc_output : Text → List LintDiagnostic
  unfolding each_line kotlinc_line lines
  parse_kotlinc_output stdout = each_line kotlinc_line (lines stdout)

  unfoldable pub dotnet_line : Text → List LintDiagnostic
  unfolding is_about_target number_of trimmed_or map_severity trim
  dotnet_line line = elim (ps.dotnet_pattern (trim line)) [
    | none ↦ []
    | some caps ↦
        if is_about_target caps
        then record {
          line = number_of caps.line_group;
          column = number_of caps.column_group;
          severity = map_severity (unwrap_or caps.level (codes "warning"));
          message = trimmed_or caps.message_group (codes "dotnet finding");
          rule_id = Option.map trim caps.rule_or_code;
          source = codes "dotnet";
        }
          ∷ []
        else []
  ]

  unfoldable pub parse_dotnet_output : Text → List LintDiagnostic
  unfolding each_line dotnet_line lines
  parse_dotnet_output stdout = each_line dotnet_line (lines stdout)
