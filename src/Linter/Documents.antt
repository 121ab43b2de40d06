-- ===== src/Linter/Documents.antt =====
-- src/linter/level2.rs: the linters that write JSON. `serde_json::from_str` comes from outside.
use Prim.Native.String.{String}
use nexus_intelli_core.Prelude.{
  ℕ, ◌%◌, ◌^◌, Bool, false, ◌&&◌, List, [], ◌∷◌, ◌++◌, map, Option, none, some, find, if◌then◌else◌,
}
use nexus_intelli_core.Prelude.Text.{Text, codes, text_eq, text_starts_with}
use nexus_intelli_core.Json.{Value, null, get, as_str, as_bool, as_u64, as_array}
use nexus_intelli_core.Json.Access.{◌>>=◌, unwrap_or}
use nexus_intelli_core.Transport.Bytes.{trim}
use nexus_intelli_core.Registry.{FilePath}
use nexus_intelli_core.Linter.{LintDiagnostic, lines}
use nexus_intelli_core.Linter.External.{map_severity, map_eslint_severity}
use nexus_intelli_core.Linter.Targets.{path_matches_target}

unfoldable pub text_at : String → Value → Option Text
unfolding get
text_at k v = get (codes k) v >>= as_str

-- `as u32` of the number at a key, 1 if there is none.
unfoldable pub u32_at : String → Value → ℕ
unfolding get
u32_at k v = unwrap_or (get (codes k) v >>= as_u64) 1 % 2 ^ 32

unfoldable pub values_at : String → Value → List Value
unfolding get
values_at k v = unwrap_or (get (codes k) v >>= as_array) []

module _ (from_str : Text → Option Value) (target root : FilePath) where
  unfoldable pub is_best_span : Value → Bool
  unfolding text_at path_matches_target get
  is_best_span span =
      unwrap_or (get (codes "is_primary") span >>= as_bool) false
      && path_matches_target (unwrap_or (text_at "file_name" span) []) target root

  unfoldable pub clippy_at : Value → Value → LintDiagnostic
  unfolding text_at u32_at map_severity get
  clippy_at message span = record {
    line = u32_at "line_start" span;
    column = u32_at "column_start" span;
    severity = map_severity (unwrap_or (text_at "level" message) (codes "info"));
    message = unwrap_or (text_at "message" message) (codes "clippy finding");
    rule_id = get (codes "code") message >>= text_at "code";
    source = codes "clippy";
  }

  unfoldable pub clippy_message : Value → List LintDiagnostic
  unfolding is_best_span clippy_at values_at
  clippy_message message = elim (find is_best_span (values_at "spans" message)) [
    | none ↦ []
    | some span ↦ clippy_at message span ∷ []
  ]

  unfoldable pub clippy_value : Value → List LintDiagnostic
  unfolding clippy_message text_at get
  clippy_value value =
      if text_eq (unwrap_or (text_at "reason" value) []) (codes "compiler-message")
      then clippy_message (unwrap_or (get (codes "message") value) null)
      else []

  unfoldable pub clippy_line : Text → List LintDiagnostic
  unfolding clippy_value
  clippy_line trimmed =
      if text_starts_with trimmed (codes "{")
      then (elim (from_str trimmed) [ none ↦ [] | some value ↦ clippy_value value ])
      else []

  unfoldable pub clippy_lines : List Text → List LintDiagnostic
  unfolding clippy_line
  clippy_lines [] = []
  clippy_lines (line ∷ ls) = clippy_line (trim line) ++ clippy_lines ls

  unfoldable pub parse_clippy_output : Text → List LintDiagnostic
  unfolding clippy_lines lines
  parse_clippy_output stdout = clippy_lines (lines stdout)

  unfoldable pub eslint_message : Value → LintDiagnostic
  unfolding text_at u32_at map_eslint_severity get
  eslint_message msg = record {
    line = u32_at "line" msg;
    column = u32_at "column" msg;
    severity = map_eslint_severity (get (codes "severity") msg >>= as_u64);
    message = unwrap_or (text_at "message" msg) (codes "eslint finding");
    rule_id = text_at "ruleId" msg;
    source = codes "eslint";
  }

  unfoldable pub eslint_file : Value → List LintDiagnostic
  unfolding eslint_message values_at text_at path_matches_target
  eslint_file file_item =
      if path_matches_target (unwrap_or (text_at "filePath" file_item) []) target root
      then map eslint_message (values_at "messages" file_item)
      else []

  unfoldable pub eslint_files : List Value → List LintDiagnostic
  unfolding eslint_file
  eslint_files [] = []
  eslint_files (f ∷ fs) = eslint_file f ++ eslint_files fs

  unfoldable pub parse_eslint_output : Text → List LintDiagnostic
  unfolding eslint_files
  parse_eslint_output stdout = elim (from_str stdout) [
    | none ↦ []
    | some value ↦ eslint_files (unwrap_or (as_array value) [])
  ]
