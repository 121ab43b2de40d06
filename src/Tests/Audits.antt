-- ===== src/Tests/Audits.antt =====
-- Findings of an audit, two of them at one place.
use nexus_intelli_core.Prelude.{◌+◌, List, [], ◌∷◌, length, All, ◌≡◌, refl}
use nexus_intelli_core.Prelude.Text.{codes, text_eq, text_starts_with}
use nexus_intelli_core.Linter.{find_text}
use nexus_intelli_core.Audit.{
  critical, high, high_confidence, medium_confidence, production, test, fixture,
  detector_definition, RichFinding, classify_context, new_finding, dedup, counts_of,
}
use nexus_intelli_core.Audit.Dedup.{HasPrint, prints, AreDistinct, dedup-AreDistinct}

abbrev secret_at_line : RichFinding
secret_at_line =
    new_finding (codes "secret-detection") (codes "hardcoded_secret") critical medium_confidence
      (codes "src/a.rs") 3 (codes "[AWS key] detected")

abbrev other_secret : RichFinding
other_secret =
    new_finding (codes "secret-detection") (codes "hardcoded_secret") critical medium_confidence
      (codes "src/a.rs") 3 (codes "[token] detected")

abbrev unsafe_in_test : RichFinding
unsafe_in_test =
    new_finding (codes "rust-unsafe") (codes "unsafe_code") high high_confidence
      (codes "tests/b.rs") 7 (codes "unsafe block")

abbrev found : List RichFinding
found = secret_at_line ∷ unsafe_in_test ∷ other_secret ∷ []

-- A second secret on the same line counts as a duplicate.
drops_second : (dedup found).1 ≡ 1
unfolding dedup new_finding text_eq
drops_second = refl

context_of_tests : classify_context (codes "tests/b.rs") ≡ test
unfolding classify_context find_text text_eq text_starts_with
context_of_tests = refl

dedup-AreDistinct_example :
    AreDistinct (dedup found).0
    × All (HasPrint (prints (dedup found).0)) found
    × (length (dedup found).0 + (dedup found).1 ≡ length found)
    × (counts_of production (dedup found).0
          + counts_of test (dedup found).0
          + counts_of fixture (dedup found).0
          + counts_of detector_definition (dedup found).0
        ≡ length (dedup found).0)
dedup-AreDistinct_example = dedup-AreDistinct found
