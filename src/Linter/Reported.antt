-- ===== src/Linter/Reported.antt =====
-- What the readers of lines in src/linter/level2.rs give: the bounds of a diagnostic's place.
use nexus_intelli_core.Prelude.{
  ℕ, ◌^◌, ◌<◌, ◌||◌, List, Option, none, some, refl, arith, inl, inr, Option-cases,
}
use nexus_intelli_core.Prelude.Text.{Text, codes, text_eq}
use nexus_intelli_core.Json.Access.{unwrap_or}
use nexus_intelli_core.Transport.Bytes.{trim}
use nexus_intelli_core.Registry.{FilePath}
use nexus_intelli_core.Linter.{lines}
use nexus_intelli_core.Linter.External.{parse_u32}
use nexus_intelli_core.Linter.Targets.{path_matches_target}
use nexus_intelli_core.Linter.Listings.{
  split_colons, part, mypy_finding, mypy_parts, Finding, javac_diagnostic, cppcheck_diagnostic,
  mypy_line, javac_line, cppcheck_line, parse_mypy_output, parse_javac_output,
  parse_cppcheck_output,
}
use nexus_intelli_core.Linter.Captured.{
  Patterns, is_about_target, ktlint_line, kotlinc_colon, kotlinc_prefixed, when_about, kotlinc_line,
  dotnet_line, parse_ktlint_output, parse_kotlinc_output, parse_dotnet_output,
}
use nexus_intelli_core.Linter.Located.{
  AreLocated, parse_u32-fits, parse_u32-some, number_of_fits, each_line-AreLocated, guarded,
  from_option,
}

mypy_finding-AreLocated :
    (l c : ℕ) (f : Option Finding)
    → l < 2 ^ 32
    → c < 2 ^ 32
    → AreLocated (codes "mypy") (mypy_finding l c f)
unfolding mypy_finding
mypy_finding-AreLocated l c none h k = tt
mypy_finding-AreLocated l c (some f) h k =
    (record { line_fits = h; column_fits = k; source_is = refl }, tt)

mypy_parts-AreLocated :
    (l : ℕ) (c rest : Text) → l < 2 ^ 32 → AreLocated (codes "mypy") (mypy_parts l c rest)
unfolding mypy_parts
mypy_parts-AreLocated l c rest h = elim (Option-cases (parse_u32 c)) [
  | inl e ↦ rw (e, mypy_parts) (mypy_finding-AreLocated l 1 _ h (omega arith))
  | inr (n, e) ↦ rw (e, mypy_parts) (mypy_finding-AreLocated l n _ h (parse_u32-some c n e))
]

javac-AreLocated :
    (t level message : Text)
    → AreLocated (codes "javac") (javac_diagnostic (parse_u32 t) level message)
unfolding javac_diagnostic
javac-AreLocated t level message = elim (Option-cases (parse_u32 t)) [
  | inl e ↦ rw (e, javac_diagnostic) tt
  | inr (n, e) ↦
      rw (e, javac_diagnostic)
        (guarded (codes "javac") (text_eq level (codes "error") || text_eq level (codes "warning"))
          _
          (
            record {
              line_fits = parse_u32-some t n e;
              column_fits = omega arith;
              source_is = refl;
            },
            tt,
          ))
]

cppcheck-AreLocated :
    (t : Text) (parts : List Text)
    → AreLocated (codes "cppcheck") (cppcheck_diagnostic (parse_u32 t) parts)
unfolding cppcheck_diagnostic
cppcheck-AreLocated t parts = elim (Option-cases (parse_u32 t)) [
  | inl e ↦ rw (e, cppcheck_diagnostic) tt
  | inr (n, e) ↦
      rw (e, cppcheck_diagnostic)
        (
          record {
            line_fits = parse_u32-some t n e;
            column_fits = parse_u32-fits (part 2 parts);
            source_is = refl;
          },
          tt,
        )
]

module _ (target root : FilePath) where
  pub mypy_output-AreLocated :
      (t : Text) → AreLocated (codes "mypy") (parse_mypy_output target root t)
  unfolding parse_mypy_output mypy_line
  mypy_output-AreLocated t =
      each_line-AreLocated (codes "mypy") (mypy_line target root) (lines t) (λ l.
        let parts = split_colons 3 l in
        guarded (codes "mypy") (path_matches_target (part 0 parts) target root) _ (
          mypy_parts-AreLocated (unwrap_or (parse_u32 (part 1 parts)) 1) (part 2 parts)
            (part 3 parts) (parse_u32-fits (part 1 parts))))

  pub javac_output-AreLocated :
      (t : Text) → AreLocated (codes "javac") (parse_javac_output target root t)
  unfolding parse_javac_output javac_line
  javac_output-AreLocated t =
      each_line-AreLocated (codes "javac") (javac_line target root) (lines t) (λ l.
        let parts = split_colons 3 l in
        guarded (codes "javac") (path_matches_target (part 0 parts) target root) _
          (javac-AreLocated (part 1 parts) (part 2 parts) (part 3 parts)))

  pub cppcheck_output-AreLocated :
      (t : Text) → AreLocated (codes "cppcheck") (parse_cppcheck_output target root t)
  unfolding parse_cppcheck_output cppcheck_line
  cppcheck_output-AreLocated t =
      each_line-AreLocated (codes "cppcheck") (cppcheck_line target root) (lines t) (λ l.
        let parts = split_colons 5 l in
        guarded (codes "cppcheck") (path_matches_target (part 0 parts) target root) _
          (cppcheck-AreLocated (part 1 parts) parts))

  module _ (ps : Patterns) where
    pub ktlint_output-AreLocated :
        (t : Text) → AreLocated (codes "ktlint") (parse_ktlint_output ps target root t)
    unfolding parse_ktlint_output ktlint_line
    ktlint_output-AreLocated t =
        each_line-AreLocated (codes "ktlint") (ktlint_line ps target root) (lines t) (λ l.
          from_option (codes "ktlint") _ (ps.ktlint_pattern (trim l)) (λ caps.
            guarded (codes "ktlint") (is_about_target ps target root caps) _ (
              record {
                line_fits = number_of_fits caps.line_group;
                column_fits = number_of_fits caps.column_group;
                source_is = refl;
              },
              tt,
            )))

    pub dotnet_output-AreLocated :
        (t : Text) → AreLocated (codes "dotnet") (parse_dotnet_output ps target root t)
    unfolding parse_dotnet_output dotnet_line
    dotnet_output-AreLocated t =
        each_line-AreLocated (codes "dotnet") (dotnet_line ps target root) (lines t) (λ l.
          from_option (codes "dotnet") _ (ps.dotnet_pattern (trim l)) (λ caps.
            guarded (codes "dotnet") (is_about_target ps target root caps) _ (
              record {
                line_fits = number_of_fits caps.line_group;
                column_fits = number_of_fits caps.column_group;
                source_is = refl;
              },
              tt,
            )))

    kotlinc_line-AreLocated :
        (l : Text) → AreLocated (codes "kotlinc") (kotlinc_line ps target root l)
    unfolding kotlinc_line when_about kotlinc_colon kotlinc_prefixed
    kotlinc_line-AreLocated l = elim (Option-cases (ps.colon_pattern (trim l))) [
      | inr (caps, e) ↦
          rw (e, kotlinc_line)
            (guarded (codes "kotlinc") (is_about_target ps target root caps) _ (
              record {
                line_fits = number_of_fits caps.line_group;
                column_fits = number_of_fits caps.column_group;
                source_is = refl;
              },
              tt,
            ))
      | inl e ↦
          rw (e, kotlinc_line)
            (from_option (codes "kotlinc") _ (ps.prefixed_pattern (trim l)) (λ caps.
              guarded (codes "kotlinc") (is_about_target ps target root caps) _ (
                record {
                  line_fits = number_of_fits caps.line_group;
                  column_fits = number_of_fits caps.column_group;
                  source_is = refl;
                },
                tt,
              )))
    ]

    pub kotlinc_output-AreLocated :
        (t : Text) → AreLocated (codes "kotlinc") (parse_kotlinc_output ps target root t)
    unfolding parse_kotlinc_output
    kotlinc_output-AreLocated t =
        each_line-AreLocated (codes "kotlinc") (kotlinc_line ps target root) (lines t)
          kotlinc_line-AreLocated
