-- ===== src/Linter.antt =====
-- src/linter/level1.rs: the checks of single lines. The text of the file and its language come from
-- outside; line and column numbers stay below the bounds of `u32`.
pub mod Masking
pub mod Scanned
pub mod Valid
pub mod InCode
pub mod External
pub mod Targets
pub mod Documents
pub mod Listings
pub mod Captured
pub mod Level2
pub mod Located
pub mod Reported
pub mod Runs
pub mod Unavailable
pub mod Pool
pub mod Sorted
use nexus_intelli_core.Prelude.{
  ℕ, suc, ◌+◌, Bool, true, false, not, ◌&&◌, ◌||◌, List, [], ◌∷◌, ◌++◌, map, Option, none, some,
  any, ◌==◌, if◌then◌else◌,
}
use nexus_intelli_core.Prelude.Text.{Text, codes, text_eq, text_starts_with}
use nexus_intelli_core.Json.Access.{is_some}
use nexus_intelli_core.Transport.Bytes.{is_utf8}

pub data Severity : Type 0 where
  error warning info : Severity

pub record LintDiagnostic : Type 0 where
  pub line : ℕ
  pub column : ℕ
  pub severity : Severity
  pub message : Text
  pub rule_id : Option Text
  pub source : Text

pub record Rule : Type 0 where
  pub pattern_text : Text
  pub message : Text
  pub rule_id : Text

abbrev rule : Text → Text → Text → Rule
rule p m r = record { pattern_text = p; message = m; rule_id = r }

abbrev js_ts_rules : List Rule
js_ts_rules =
    rule (codes "console.log(") (codes "console.log() detected") (codes "no-console")
    ∷ rule (codes "debugger;") (codes "debugger statement detected") (codes "no-debugger")
    ∷ []

abbrev python_rules : List Rule
python_rules =
    rule (codes "print(") (codes "print() detected") (codes "no-print")
    ∷ rule (codes "import *") (codes "wildcard import detected") (codes "import-star")
    ∷ []

abbrev java_rules : List Rule
java_rules =
    rule (codes "System.out.println(") (codes "System.out.println() detected")
      (codes "no-system-out")
    ∷ []

abbrev rust_rules : List Rule
rust_rules =
    rule (codes "unwrap()") (codes ".unwrap() detected") (codes "no-unwrap")
    ∷ rule (codes "dbg!(") (codes "debug print detected") (codes "no-debug-print")
    ∷ rule (codes "println!(") (codes "debug print detected") (codes "no-debug-print")
    ∷ []

abbrev one_of_texts : Text → List Text → Bool
one_of_texts t ts = any (text_eq t) ts

unfoldable pub language_rules : Text → List Rule
language_rules language =
    if one_of_texts language (codes "javascript" ∷ codes "typescript" ∷ codes "tsx" ∷ [])
    then js_ts_rules
    else if text_eq language (codes "python")
    then python_rules
    else if text_eq language (codes "java")
    then java_rules
    else if text_eq language (codes "rust")
    then rust_rules
    else []

abbrev pub slash_languages : List Text
slash_languages =
    codes "rust"
    ∷ codes "javascript"
    ∷ codes "typescript"
    ∷ codes "tsx"
    ∷ codes "java"
    ∷ codes "c"
    ∷ codes "csharp"
    ∷ []

-- On the bytes from the index on.
unfoldable pub is_line_comment_start : Text → Text → Bool
is_line_comment_start language [] = false
is_line_comment_start language (c ∷ cs) =
    if text_eq language (codes "python")
    then c == b'#'
    else if one_of_texts language slash_languages
    then (c == b'/' && text_starts_with cs (codes "/"))
    else false

-- Inside a string that ends with the quote q: whether it goes on, and the new escape flag.
unfoldable pub string_next : ℕ → Bool → ℕ → Bool × Bool
string_next q escape c =
    if escape
    then (true, false)
    else if c == 92
    then (true, true)
    else if c == q
    then (false, false)
    else (true, false)

abbrev pub blank : ℕ
blank = 32

-- The loop of `sanitized_line_for_matching`, over the bytes from the index on.
unfoldable pub mask : Text → Bool → Bool → Bool → Text → Text
unfolding is_line_comment_start string_next
mask language in_single in_double escape [] = []
mask language true in_double escape (c ∷ cs) =
    let (inside, esc) = string_next 39 escape c in blank ∷ mask language inside in_double esc cs
mask language false true escape (c ∷ cs) =
    let (inside, esc) = string_next 34 escape c in blank ∷ mask language false inside esc cs
mask language false false escape (c ∷ cs) =
    let rest = mask language (c == 39) (not (c == 39) && c == 34) escape cs in
    if is_line_comment_start language (c ∷ cs)
    then map (λ _. blank) (c ∷ cs)
    else (if c == 39 || c == 34 then blank else c) ∷ rest

unfoldable pub sanitized_line_for_matching : Text → Text → Text
unfolding mask
sanitized_line_for_matching line language =
    let bytes = mask language false false false line in if is_utf8 bytes then bytes else line

-- `str::find`: the first offset at which the pattern stands.
unfoldable pub find_text : Text → Text → Option ℕ
find_text p [] = elim p [ [] ↦ some 0 | _ ∷ _ ↦ none ]
find_text p (c ∷ cs) =
    let rest = find_text p cs in
    if text_starts_with (c ∷ cs) p
    then some 0
    else elim rest [ none ↦ none | some n ↦ some (suc n) ]

-- `str::lines`: a carriage return goes with the line feed after it.
unfoldable pub lines : Text → List Text
lines [] = []
lines (c ∷ cs) =
    let rest = lines cs in
    if c == 10
    then [] ∷ rest
    else if c == 13 && text_starts_with cs (10 ∷ [])
    then rest
    else elim rest [ [] ↦ (c ∷ []) ∷ [] | l ∷ ls ↦ (c ∷ l) ∷ ls ]

unfoldable pub mk_diag : ℕ → ℕ → Rule → LintDiagnostic
mk_diag line_number column_number r = record {
  line = line_number;
  column = column_number;
  severity = warning;
  message = r.message;
  rule_id = some r.rule_id;
  source = codes "tree-sitter";
}

-- The markers with their ids in lower case.
abbrev markers : List (Text × Text)
markers =
    (codes "TODO", codes "todo")
    ∷ (codes "FIXME", codes "fixme")
    ∷ (codes "HACK", codes "hack")
    ∷ []

-- The first marker in the line.
unfoldable pub marker_diagnostics : ℕ → Text → List (Text × Text) → List LintDiagnostic
unfolding find_text
marker_diagnostics n line [] = []
marker_diagnostics n line ((marker, id) ∷ ms) =
    let rest = marker_diagnostics n line ms in
    if is_some (find_text marker line)
    then (record {
      line = n;
      column = 1;
      severity = info;
      message = marker ++ codes " found in comment or code";
      rule_id = some id;
      source = codes "tree-sitter";
    })
      ∷ []
    else rest

unfoldable pub rule_diagnostics : ℕ → Text → List Rule → List LintDiagnostic
unfolding find_text mk_diag
rule_diagnostics n scan_line [] = []
rule_diagnostics n scan_line (r ∷ rs) =
    let rest = rule_diagnostics n scan_line rs in
    elim (find_text r.pattern_text scan_line) [
      | none ↦ rest
      | some column ↦ mk_diag n (suc column) r ∷ rest
    ]

unfoldable pub check_lines : Text → ℕ → List Text → List LintDiagnostic
unfolding marker_diagnostics rule_diagnostics sanitized_line_for_matching language_rules
check_lines language n [] = []
check_lines language n (line ∷ ls) =
    marker_diagnostics n line markers
    ++ (rule_diagnostics n (sanitized_line_for_matching line language) (language_rules language)
        ++ check_lines language (suc n) ls)

-- `run_tree_sitter_checks` on the text of the file.
unfoldable pub run_tree_sitter_checks : Text → Text → List LintDiagnostic
unfolding check_lines lines
run_tree_sitter_checks source language = check_lines language 1 (lines source)
