-- ===== src/Tests/Lines.antt =====
-- A line of Rust with a call of `println!`, and the same text in a string.
use nexus_intelli_core.Prelude.{[], ◌∷◌, ◌≡◌, refl}
use nexus_intelli_core.Prelude.Text.{Text, codes, text_eq, text_starts_with}
use nexus_intelli_core.Transport.Bytes.{is_utf8}
use nexus_intelli_core.Linter.{Rule, run_tree_sitter_checks, mk_diag}

abbrev call_line : Text
call_line = codes "  println!(1); // dbg!("

abbrev print_rule : Rule
print_rule = record {
  pattern_text = codes "println!(";
  message = codes "debug print detected";
  rule_id = codes "no-debug-print";
}

-- One finding only: the comment is not searched.
one_finding : run_tree_sitter_checks call_line (codes "rust") ≡ mk_diag 1 3 print_rule ∷ []
unfolding run_tree_sitter_checks text_eq text_starts_with is_utf8
one_finding = refl
