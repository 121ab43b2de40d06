-- ===== src/Registry/Confinement.antt =====
-- Where a path that the registry resolves may lie (src/state/mod.rs: `resolve_project_for_path`,
-- `longest_root_match`; src/state/resolver.rs: `validate_path`).
use nexus_intelli_core.Prelude.{
  ℕ, ◌≤◌, true, false, [], ◌∷◌, Option, none, some, ◌≡◌, ◌⊎◌, inl, inr, refl, sym, arith, All,
  length, ltb, Bool-cases, Option-cases,
}
use mathlib.Core.Path.{subst}
use nexus_intelli_core.Prelude.Text.{Text}
use nexus_intelli_core.Registry.{
  Files, FilePath, ProjectContext, Projects, Registry, ok, Result-cases, starts_with, deeper,
  longest_root_match, get_project, validate_path, fallback_for_path, resolve_project_for_path,
}

-- `p` is the project of some entry, its root holds the path, and no root that does is deeper.
pub record IsDeepest (ps : Projects) (canonical : FilePath) (p : ProjectContext) : Type 0 where
  pub inside : starts_with canonical p.root ≡ true
  pub deepest :
      All (λ e. starts_with canonical e.1.root ≡ true → length e.1.root ≤ length p.root) ps

abbrev pub Listed : ProjectContext → Projects → Type 0
Listed p [] = ⊥
Listed p ((k, q) ∷ ps) = (p ≡ q) ⊎ Listed p ps

abbrev NoneInside : FilePath → Projects → Type 0
NoneInside canonical ps = All (λ e. starts_with canonical e.1.root ≡ false) ps

abbrev NoDeeper : FilePath → ℕ → Projects → Type 0
NoDeeper canonical n ps = All (λ e. starts_with canonical e.1.root ≡ true → length e.1.root ≤ n) ps

NoDeeper-mono :
    (canonical : FilePath) (n m : ℕ) (ps : Projects)
    → n ≤ m
    → NoDeeper canonical n ps
    → NoDeeper canonical m ps
NoDeeper-mono canonical n m [] le h = tt
NoDeeper-mono canonical n m ((k, p) ∷ ps) le (b, h) =
    (λ inside. omega (arith, b inside), NoDeeper-mono canonical n m ps le h)

NoDeeper-of_NoneInside :
    (canonical : FilePath) (n : ℕ) (ps : Projects)
    → NoneInside canonical ps
    → NoDeeper canonical n ps
NoDeeper-of_NoneInside canonical n [] h = tt
NoDeeper-of_NoneInside canonical n ((k, p) ∷ ps) (b, h) =
    (λ inside. cc, NoDeeper-of_NoneInside canonical n ps h)

abbrev Chosen : FilePath → Projects → Option ProjectContext → Type 0
Chosen canonical ps none = NoneInside canonical ps
Chosen canonical ps (some p) = IsDeepest ps canonical p × Listed p ps

deeper-Chosen :
    (k : Text) (q : ProjectContext) (ps : Projects) (canonical : FilePath)
    (best : Option ProjectContext)
    → starts_with canonical q.root ≡ true
    → Chosen canonical ps best
    → Chosen canonical ((k, q) ∷ ps) (some (deeper q best))
unfolding deeper
deeper-Chosen k q ps canonical none inside h = (
  record { inside = inside; deepest = (λ _. omega arith, NoDeeper-of_NoneInside canonical _ ps h) },
  inl refl,
)
deeper-Chosen k q ps canonical (some p) inside (d, listed) =
    elim (Bool-cases (ltb (length p.root) (length q.root))) [
      | inl more ↦
          let e : deeper q (some p) ≡ q = ground arith in
          subst (λ r. Chosen canonical ((k, q) ∷ ps) (some r)) (sym e)
            (
              record {
                inside = inside;
                deepest = (
                  λ _. omega arith,
                  NoDeeper-mono canonical (length p.root) _ ps (ground arith) d.deepest,
                );
              },
              inl refl,
            )
      | inr most ↦
          let e : deeper q (some p) ≡ p = ground arith in
          subst (λ r. Chosen canonical ((k, q) ∷ ps) (some r)) (sym e)
            (record { inside = d.inside; deepest = (λ _. ground arith, d.deepest) }, inr listed)
    ]

outside-Chosen :
    (k : Text) (q : ProjectContext) (ps : Projects) (canonical : FilePath)
    (best : Option ProjectContext)
    → starts_with canonical q.root ≡ false
    → Chosen canonical ps best
    → Chosen canonical ((k, q) ∷ ps) best
outside-Chosen k q ps canonical none outside h = (outside, h)
outside-Chosen k q ps canonical (some p) outside (d, listed) =
    (record { inside = d.inside; deepest = (λ inside. cc, d.deepest) }, inr listed)

longest-Chosen :
    (ps : Projects) (canonical : FilePath) → Chosen canonical ps (longest_root_match ps canonical)
unfolding longest_root_match
longest-Chosen [] canonical = tt
longest-Chosen ((k, q) ∷ ps) canonical = elim (Bool-cases (starts_with canonical q.root)) [
  | inl inside ↦ rw inside (deeper-Chosen k q ps canonical _ inside (longest-Chosen ps canonical))
  | inr outside ↦
      rw outside (outside-Chosen k q ps canonical _ outside (longest-Chosen ps canonical))
]

-- The project chosen for a canonical path is a registered one whose root holds the path, and no
-- registered root that holds it has more components.
pub longest_root_match-IsDeepest :
    (ps : Projects) (canonical : FilePath) (p : ProjectContext)
    → longest_root_match ps canonical ≡ some p
    → IsDeepest ps canonical p × Listed p ps
longest_root_match-IsDeepest ps canonical p e = rw e at (longest-Chosen ps canonical)

validate-inside :
    (fs : Files) (p : ProjectContext) (requested : Text) (path : FilePath)
    → validate_path fs p requested ≡ ok path
    → starts_with path p.root ≡ true
unfolding validate_path
validate-inside fs p requested path e = ground arith

fallback-inside :
    (fs : Files) (file_path : Text) (s : Registry) (p : ProjectContext) (path : FilePath)
    → fallback_for_path fs file_path s ≡ ok (p, path)
    → starts_with path p.root ≡ true
unfolding fallback_for_path
fallback-inside fs file_path s p path e = elim (Result-cases (get_project fs none s)) [
  | inr (x, failed) ↦ cc (rw failed at e)
  | inl (q, found) ↦ elim (Result-cases (validate_path fs q file_path)) [
    | inr (x, failed) ↦ ground arith
    | inl (c, checked) ↦ ground (arith, validate-inside fs q file_path c)
  ]
]

-- A path that `resolve_project_for_path` accepts lies inside the root of the project that it
-- returns, whichever way the project was found.
pub resolve_project_for_path-inside :
    (fs : Files) (file_path : Text) (s : Registry) (p : ProjectContext) (path : FilePath)
    → resolve_project_for_path fs file_path s ≡ ok (p, path)
    → starts_with path p.root ≡ true
unfolding resolve_project_for_path
resolve_project_for_path-inside fs file_path s p path e =
    elim (Option-cases (fs.canonicalize file_path)) [
      | inl missing ↦ fallback-inside fs file_path s p path (ground arith)
      | inr (c, canonical) ↦ elim (Option-cases (longest_root_match s.projects c)) [
        | inl unmatched ↦ fallback-inside fs file_path s p path (ground arith)
        | inr (q, matched) ↦
            let d = longest_root_match-IsDeepest s.projects c q matched in
            let inside = d.0.inside in ground arith
      ]
    ]
