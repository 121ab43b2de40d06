-- ===== src/Audit.antt =====
-- src/tools/audit.rs: the findings of the security audit, their deduplication and the counts of the
-- report. The scan for secrets, the queries of the syntax tree and `str::to_lowercase` come from
-- outside.
pub mod Dedup
use nexus_intelli_core.Prelude.{
  ℕ, suc, ◌+◌, ◌-◌, Bool, true, false, ◌&&◌, ◌||◌, List, [], ◌∷◌, ◌++◌, map, length, any, retain,
  Option, none, some, ◌==◌, if◌then◌else◌,
}
use nexus_intelli_core.Prelude.Text.{Text, codes, text_eq, text_starts_with}
use nexus_intelli_core.Prelude.Decimal.{to_dec}
use nexus_intelli_core.Json.Access.{is_some}
use nexus_intelli_core.Aliases.{text_ends_with}
use nexus_intelli_core.Linter.{find_text, lines}
use nexus_intelli_core.Linter.Targets.{forward_slashes}

pub data Severity : Type 0 where
  critical high medium : Severity

pub data Confidence : Type 0 where
  high_confidence medium_confidence : Confidence

pub data AuditContext : Type 0 where
  production test fixture detector_definition : AuditContext

abbrev pub same_severity : Severity → Severity → Bool
same_severity critical critical = true
same_severity high high = true
same_severity medium medium = true
same_severity _ _ = false

abbrev pub same_context : AuditContext → AuditContext → Bool
same_context production production = true
same_context test test = true
same_context fixture fixture = true
same_context detector_definition detector_definition = true
same_context _ _ = false

pub record RichFinding : Type 0 where
  pub rule_id : Text
  pub category : Text
  pub severity : Severity
  pub confidence : Confidence
  pub context : AuditContext
  pub file : Text
  pub line : ℕ
  pub description : Text
  pub fingerprint : Text

unfoldable pub has_text : Text → Text → Bool
unfolding find_text
has_text t p = is_some (find_text p t)

unfoldable pub classify_context : Text → AuditContext
unfolding has_text text_ends_with forward_slashes text_starts_with
classify_context rel_path =
    let p = forward_slashes rel_path in
    if has_text p (codes "tests/fixtures/")
    then fixture
    else if any (text_ends_with p) (
        codes "audit_queries.rs"
        ∷ codes "src/analyzer/audit.rs"
        ∷ codes "sanitizer.rs"
        ∷ codes "privacy_gateway.rs"
        ∷ codes ".md"
        ∷ [])
    then detector_definition
    else if text_starts_with p (codes "tests/")
        || (any (has_text p) (codes "/tests/" ∷ codes "_test." ∷ codes "/test_" ∷ [])
            || text_ends_with p (codes "/tests.rs"))
    then test
    else production

-- `RichFinding::new`.
unfoldable pub new_finding :
    (rule_id category : Text) → Severity → Confidence → (file : Text) → ℕ → Text → RichFinding
unfolding classify_context to_dec
new_finding rule_id category severity confidence file line description = record {
  rule_id = rule_id;
  category = category;
  severity = severity;
  confidence = confidence;
  context = classify_context file;
  file = file;
  line = line;
  description = description;
  fingerprint = rule_id ++ b':' ∷ file ++ b':' ∷ to_dec line;
}

-- `retain` with the set of the fingerprints seen.
unfoldable pub keep_new : List Text → List RichFinding → List RichFinding
unfolding text_eq
keep_new seen [] = []
keep_new seen (f ∷ fs) =
    let dropped = keep_new seen fs in
    let kept = keep_new (f.fingerprint ∷ seen) fs in
    if any (text_eq f.fingerprint) seen then dropped else f ∷ kept

unfoldable pub dedup : List RichFinding → List RichFinding × ℕ
unfolding keep_new
dedup findings = let kept = keep_new [] findings in (kept, length findings - length kept)

pub data AuditFindingKind : Type 0 where
  unsafe_code dynamic_execution insecure_assignment : AuditFindingKind

pub record AstFinding : Type 0 where
  pub kind : AuditFindingKind
  pub line : ℕ
  pub description : Text

-- `detect_all_secrets`, `audit_file_ast` where a grammar is found, and `to_lowercase`.
pub record Detectors : Type 0 where
  pub detect_all_secrets : Text → List (Text × ℕ)
  pub audit_file_ast : Text → Text → Option (List AstFinding)
  pub to_lowercase : Text → Text

unfoldable pub secret_finding : Text → Text × ℕ → RichFinding
unfolding new_finding
secret_finding rel (secret_type, line) =
    new_finding (codes "secret-detection") (codes "hardcoded_secret") critical medium_confidence rel
      line
      (b'[' ∷ secret_type
        ++ codes "] detected "
        ++ (226 ∷ 128 ∷ 148 ∷ [])
        ++ codes " value NOT recorded")

unfoldable pub ast_finding : Text → AstFinding → RichFinding
unfolding new_finding
ast_finding rel f = elim (f.kind) [
  | unsafe_code ↦
      new_finding (codes "rust-unsafe") (codes "unsafe_code") high high_confidence rel f.line
        f.description
  | dynamic_execution ↦
      new_finding (codes "dynamic-execution") (codes "dynamic_execution") high high_confidence rel
        f.line f.description
  | insecure_assignment ↦
      new_finding (codes "insecure-assignment") (codes "insecure_assignment") high high_confidence
        rel f.line f.description
]

module _ (d : Detectors) where
  unfoldable pub looks_like_sql : Text → Bool
  unfolding has_text
  looks_like_sql line =
      let lower = d.to_lowercase line in
      any (has_text lower) (codes "select " ∷ codes "insert " ∷ codes "delete " ∷ [])
      && any (has_text line) (codes "+" ∷ codes "format!" ∷ codes "concat" ∷ [])

  unfoldable pub sql_findings : Text → ℕ → List Text → List RichFinding
  unfolding looks_like_sql new_finding
  sql_findings rel n [] = []
  sql_findings rel n (line ∷ ls) =
      let rest = sql_findings rel (suc n) ls in
      if looks_like_sql line
      then new_finding (codes "sql-injection-heuristic") (codes "sql_injection") high
          medium_confidence rel n (codes "Potential SQL injection via string concatenation")
        ∷ rest
      else rest

  -- The findings of one file that could be read; a file without a grammar is left after its secrets.
  unfoldable pub file_findings : (rel source : Text) → List RichFinding
  unfolding secret_finding ast_finding sql_findings lines
  file_findings rel source =
      map (secret_finding rel) (d.detect_all_secrets source)
      ++ elim (d.audit_file_ast rel source) as (λ _. List RichFinding) [
        | none ↦ []
        | some fs ↦ map (ast_finding rel) fs ++ sql_findings rel 1 (lines source)
      ]

  -- The files whose path is valid and whose text can be read, by their relative path.
  unfoldable pub all_findings : List (Text × Text) → List RichFinding
  unfolding file_findings
  all_findings [] = []
  all_findings ((rel, source) ∷ files) = file_findings rel source ++ all_findings files

unfoldable pub count_of : AuditContext → Severity → List RichFinding → ℕ
count_of ctx sev [] = 0
count_of ctx sev (f ∷ fs) =
    (if same_context f.context ctx && same_severity f.severity sev then 1 else 0)
    + count_of ctx sev fs

unfoldable pub counts_of : AuditContext → List RichFinding → ℕ
unfolding count_of
counts_of ctx fs = count_of ctx critical fs + count_of ctx high fs + count_of ctx medium fs
