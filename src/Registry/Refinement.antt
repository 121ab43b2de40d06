-- ===== src/Registry/Refinement.antt =====
-- What the registry of src/state/mod.rs promises, as a map from ids to projects that forgets in
-- which order a table holds them.
use mathlib.Core.Path.{subst}
use mathlib.Core.Option.{some-injective, none-ne-some}
use nexus_intelli_core.Prelude.{
  true, false, List, [], ◌∷◌, Option, none, some, find, ◌≡◌, inl, inr, refl, sym, ap, ◌∙◌, arith,
  Bool-cases, Option-cases, if◌then◌else◌,
}
use nexus_intelli_core.Prelude.Text.{Text, text_eq, text_eq_iff, text_eq_refl}
use nexus_intelli_core.Registry.{
  Files, FilePath, path_eq, ProjectContext, Projects, Registry, Failure, ok, err, Result-cases,
  lookup, remove, find_root, new_project, register_project, target_id, unregister_project, empty,
}
use nexus_intelli_core.Registry.Keys.{
  HasOwnKeys, lookup-insert, lookup-remove, path_eq→eq, path_eq_refl,
}
use nexus_intelli_core.Registry.Invariant.{Call, register, unregister, run, registry-IsWellFormed}

apart : ¬ (true ≡ false)
apart e = ground arith

abbrev pub IdMap : Type 0
IdMap = Text → Option ProjectContext

abbrev pub with_project : ProjectContext → IdMap → IdMap
with_project p t = λ j. if text_eq p.id j then some p else t j

abbrev pub without : Text → IdMap → IdMap
without k t = λ j. if text_eq k j then none else t j

-- The text is the id of a project, or it is none and the path of the root of one.
pub data Names (fs : Files) (t : IdMap) (given k : Text) : Type 0 where
  by_id : (p : ProjectContext) → k ≡ given → t given ≡ some p → Names fs t given k
  by_root :
      (p : ProjectContext)
      → t given ≡ none
      → fs.canonicalize given ≡ some p.root
      → t k ≡ some p
      → Names fs t given k

-- What a call may do to the map.
pub data Allowed (fs : Files) (t u : IdMap) : Call → Type 0 where
  registered :
      (root_str : Text) (id : Option Text) (p : ProjectContext)
      → new_project fs root_str id ≡ ok p
      → ((j : Text) → u j ≡ with_project p t j)
      → Allowed fs t u (register root_str id)
  refused :
      (root_str : Text) (id : Option Text) (e : Failure)
      → new_project fs root_str id ≡ err e
      → ((j : Text) → u j ≡ t j)
      → Allowed fs t u (register root_str id)
  removed :
      (given k : Text)
      → Names fs t given k
      → ((j : Text) → u j ≡ without k t j)
      → Allowed fs t u (unregister given)
  not_there :
      (given : Text)
      → ((k : Text) → ¬ Names fs t given k)
      → ((j : Text) → u j ≡ t j)
      → Allowed fs t u (unregister given)

abbrev pub map_of : Registry → IdMap
map_of s = λ j. lookup j s.projects

find_root-lookup :
    (root : FilePath) (ps : Projects) (e : Text × ProjectContext)
    → HasOwnKeys ps
    → find_root root ps ≡ some e
    → (lookup e.0 ps ≡ some e.1) × (path_eq e.1.root root ≡ true)
unfolding find_root lookup
find_root-lookup root [] e h f = absurd (ground (arith, f))
find_root-lookup root ((k, p) ∷ ps) e (own, fresh, h) f = elim (Bool-cases (path_eq p.root root)) [
  | inl y ↦
      subst (λ x. (lookup x.0 ((k, p) ∷ ps) ≡ some x.1) × (path_eq x.1.root root ≡ true))
        (some-injective (k, p) e (sym (rw (y, find) refl) ∙ f)) (rw (text_eq_refl k) refl, y)
  | inr n ↦
      let (l, y) = find_root-lookup root ps e h (sym (rw (n, find) refl) ∙ f) in
      (ground (arith, l, fresh, text_eq_iff k e.0), y)
]

find_root-none :
    (root : FilePath) (ps : Projects) (k : Text) (p : ProjectContext)
    → find_root root ps ≡ none
    → lookup k ps ≡ some p
    → path_eq p.root root ≡ false
unfolding find_root lookup
find_root-none root [] k p h e = absurd (ground (arith, e))
find_root-none root ((j, q) ∷ ps) k p h e = elim (Bool-cases (path_eq q.root root)) [
  | inl y ↦ absurd (ground (arith, h, y))
  | inr n ↦ elim (Bool-cases (text_eq j k)) [
    | inl y ↦
        let same : q ≡ p = some-injective q p (sym (rw (y, lookup) refl) ∙ e) in
        subst (λ x. path_eq x.root root ≡ false) same n
    | inr m ↦
        find_root-none root ps k p (sym (rw (n, find) refl) ∙ h) (sym (rw (m, lookup) refl) ∙ e)
  ]
]

module _ (fs : Files) (s : Registry) where
  register-Allowed :
      (root_str : Text) (id : Option Text)
      → Allowed fs (map_of s) (map_of (register_project fs root_str id s).0) (register root_str id)
  unfolding register_project
  register-Allowed root_str id = elim (Result-cases (new_project fs root_str id)) [
    | inr (e, failed) ↦ refused root_str id e failed (λ j. rw (failed, register_project) refl)
    | inl (p, made) ↦
        registered root_str id p made
          (λ j. rw (made, register_project) (lookup-insert p.id j p s.projects))
  ]

  removes :
      (given k : Text) (p : ProjectContext)
      → target_id fs given s ≡ some k
      → lookup k s.projects ≡ some p
      → (unregister_project fs given s).0.projects ≡ remove k s.projects
  unfolding unregister_project
  removes given k p t found = rw (t, found, unregister_project) refl

  keeps :
      (given : Text)
      → target_id fs given s ≡ none
      → (unregister_project fs given s).0.projects ≡ s.projects
  unfolding unregister_project
  keeps given t = rw (t, unregister_project) refl

  target_by_id :
      (given : Text) (p : ProjectContext)
      → lookup given s.projects ≡ some p
      → target_id fs given s ≡ some given
  unfolding target_id
  target_by_id given p found = rw (found, target_id) refl

  target_nowhere :
      (given : Text)
      → lookup given s.projects ≡ none
      → fs.canonicalize given ≡ none
      → target_id fs given s ≡ none
  unfolding target_id
  target_nowhere given miss c = rw (miss, c, target_id) refl

  target_no_root :
      (given : Text) (root : FilePath)
      → lookup given s.projects ≡ none
      → fs.canonicalize given ≡ some root
      → find_root root s.projects ≡ none
      → target_id fs given s ≡ none
  unfolding target_id
  target_no_root given root miss c f = rw (miss, c, f, target_id) refl

  target_by_root :
      (given : Text) (root : FilePath) (e : Text × ProjectContext)
      → lookup given s.projects ≡ none
      → fs.canonicalize given ≡ some root
      → find_root root s.projects ≡ some e
      → target_id fs given s ≡ some e.0
  unfolding target_id
  target_by_root given root e miss c f = rw (miss, c, f, target_id) refl

  keeps_all :
      (given : Text)
      → target_id fs given s ≡ none
      → ((k : Text) → ¬ Names fs (map_of s) given k)
      → Allowed fs (map_of s) (map_of (unregister_project fs given s).0) (unregister given)
  keeps_all given t absent = not_there given absent (λ j. ap (lookup j) (keeps given t))

  removes_one :
      (given k : Text) (p : ProjectContext)
      → HasOwnKeys s.projects
      → target_id fs given s ≡ some k
      → lookup k s.projects ≡ some p
      → Names fs (map_of s) given k
      → Allowed fs (map_of s) (map_of (unregister_project fs given s).0) (unregister given)
  removes_one given k p own t found n =
      removed given k n
        (λ j. ap (lookup j) (removes given k p t found) ∙ lookup-remove k j s.projects own)

  nowhere :
      (given : Text)
      → lookup given s.projects ≡ none
      → fs.canonicalize given ≡ none
      → (k : Text) → ¬ Names fs (map_of s) given k
  nowhere given miss c k (by_id p e found) = none-ne-some p (sym miss ∙ found)
  nowhere given miss c k (by_root p m r found) = none-ne-some p.root (sym c ∙ r)

  no_such_root :
      (given : Text) (root : FilePath)
      → lookup given s.projects ≡ none
      → fs.canonicalize given ≡ some root
      → find_root root s.projects ≡ none
      → (k : Text) → ¬ Names fs (map_of s) given k
  no_such_root given root miss c f k (by_id p e found) = none-ne-some p (sym miss ∙ found)
  no_such_root given root miss c f k (by_root p m r found) =
      let same : p.root ≡ root = some-injective p.root root (sym r ∙ c) in
      apart (
        sym (ap (λ x. path_eq x root) same ∙ path_eq_refl root)
        ∙ find_root-none root s.projects k p f found)

  unregister-Allowed :
      (given : Text)
      → HasOwnKeys s.projects
      → Allowed fs (map_of s) (map_of (unregister_project fs given s).0) (unregister given)
  unregister-Allowed given own = elim (Option-cases (lookup given s.projects)) [
    | inr (p, found) ↦
        removes_one given given p own (target_by_id given p found) found (by_id p refl found)
    | inl miss ↦ elim (Option-cases (fs.canonicalize given)) [
      | inl c ↦ keeps_all given (target_nowhere given miss c) (nowhere given miss c)
      | inr (root, c) ↦ elim (Option-cases (find_root root s.projects)) [
        | inl f ↦
            keeps_all given (target_no_root given root miss c f) (no_such_root given root miss c f)
        | inr (e, f) ↦
            let (l, y) = find_root-lookup root s.projects e own f in
            removes_one given e.0 e.1 own (target_by_root given root e miss c f) l
              (by_root e.1 miss (c ∙ ap some (sym (path_eq→eq e.1.root root y))) l)
      ]
    ]
  ]

-- One call.
unfoldable pub step : Files → Call → Registry → Registry
step fs (register root_str id) s = (register_project fs root_str id s).0
step fs (unregister given) s = (unregister_project fs given s).0

-- After any calls, each further call does to the map of ids what the map allows: a registration puts
-- the new project under its id or, refused, changes nothing; a removal takes away the project that
-- the text names by its id or else by the path of its root, or nothing when it names none.
pub step-Allowed :
    (fs : Files) (cs : List Call) (c : Call)
    → Allowed fs (map_of (run fs cs empty)) (map_of (step fs c (run fs cs empty))) c
unfolding step
step-Allowed fs cs (register root_str id) = register-Allowed fs (run fs cs empty) root_str id
step-Allowed fs cs (unregister given) =
    unregister-Allowed fs (run fs cs empty) given (registry-IsWellFormed fs cs).own
