-- ===== src/Registry/Invariant.antt =====
-- The registry invariant: every project under its own id, and a default that is registered
-- (src/state/mod.rs: `register_project`, `unregister_project`, `get_project`).
use nexus_intelli_core.Prelude.{
  List, [], ◌∷◌, Option, none, some, ◌≡◌, ◌⊎◌, inl, inr, refl, arith, Bool-cases, Option-cases,
  if◌then◌else◌,
}
use nexus_intelli_core.Prelude.Text.{Text, text_eq, text_eq_iff}
use nexus_intelli_core.Registry.{
  Files, ProjectContext, Projects, Registry, ok, err, no_project_registered, Result-cases, lookup,
  insert, remove, first_key, or_default, is_default, empty, new_project, register_project,
  target_id, unregister_project, get_project,
}
use nexus_intelli_core.Registry.Keys.{
  HasOwnKeys, lookup-insert, insert-HasOwnKeys, lookup-remove, remove-HasOwnKeys, first_key-found,
}

abbrev pub IsRegistered : Text → Projects → Type 0
IsRegistered k ps = (p : ProjectContext) × (lookup k ps ≡ some p)

abbrev pub HasDefault : Option Text → Projects → Type 0
HasDefault none ps = ps ≡ []
HasDefault (some d) ps = IsRegistered d ps

pub record IsWellFormed (s : Registry) : Type 0 where
  pub own : HasOwnKeys s.projects
  pub default_known : HasDefault s.default_project_id s.projects

pub empty-IsWellFormed : IsWellFormed empty
empty-IsWellFormed = record { own = tt; default_known = refl }

insert-HasDefault :
    (d : Option Text) (p : ProjectContext) (ps : Projects)
    → HasDefault d ps
    → HasDefault (or_default d p.id) (insert p.id p ps)
insert-HasDefault none p ps h =
    (p, ground (arith, lookup-insert p.id p.id p ps, text_eq_iff p.id p.id))
insert-HasDefault (some d) p ps (q, found) = elim (Bool-cases (text_eq p.id d)) [
  | inl same ↦ (p, ground (arith, lookup-insert p.id d p ps))
  | inr other ↦ (q, ground (arith, lookup-insert p.id d p ps))
]

first_key-HasDefault : (ps : Projects) → HasDefault (first_key ps) ps
first_key-HasDefault [] = refl
first_key-HasDefault ((k, p) ∷ ps) = first_key-found ((k, p) ∷ ps) k refl

remove-HasDefault :
    (d : Option Text) (k : Text) (ps : Projects)
    → HasOwnKeys ps
    → IsRegistered k ps
    → HasDefault d ps
    → HasDefault (if is_default d k then first_key (remove k ps) else d) (remove k ps)
unfolding lookup
remove-HasDefault none k ps o (p, found) h = cc (rw h at found)
remove-HasDefault (some d) k ps o r (q, found) = elim (Bool-cases (text_eq d k)) [
  | inl same ↦ rw same (first_key-HasDefault (remove k ps))
  | inr other ↦
      rw other (q, ground (arith, lookup-remove k d ps o, text_eq_iff d k, text_eq_iff k d))
]

module _ (fs : Files) where
  register-IsWellFormed :
      (root_str : Text) (id : Option Text) (s : Registry)
      → IsWellFormed s
      → IsWellFormed (register_project fs root_str id s).0
  unfolding register_project
  register-IsWellFormed root_str id s h = elim (Result-cases (new_project fs root_str id)) [
    | inr (e, failed) ↦ rw (failed, register_project) h
    | inl (p, made) ↦
        rw (made, register_project)
          (record {
            own = insert-HasOwnKeys p s.projects h.own;
            default_known = insert-HasDefault s.default_project_id p s.projects h.default_known;
          })
  ]

  unregister-IsWellFormed :
      (id_or_path : Text) (s : Registry)
      → IsWellFormed s
      → IsWellFormed (unregister_project fs id_or_path s).0
  unfolding unregister_project
  unregister-IsWellFormed id_or_path s h = elim (Option-cases (target_id fs id_or_path s)) [
    | inl unknown ↦ rw (unknown, unregister_project) h
    | inr (id, target) ↦ elim (Option-cases (lookup id s.projects)) [
      | inl gone ↦ rw (target, gone, unregister_project) h
      | inr (p, found) ↦
          rw (target, found, unregister_project)
            (record {
              own = remove-HasOwnKeys id s.projects h.own;
              default_known =
                  remove-HasDefault s.default_project_id id s.projects h.own (p, found)
                    h.default_known;
            })
    ]
  ]

-- The calls that change the registry.
pub data Call : Type 0 where
  register : Text → Option Text → Call
  unregister : Text → Call

unfoldable pub run : Files → List Call → Registry → Registry
run fs [] s = s
run fs (register root_str id ∷ cs) s = run fs cs (register_project fs root_str id s).0
run fs (unregister id_or_path ∷ cs) s = run fs cs (unregister_project fs id_or_path s).0

run-IsWellFormed :
    (fs : Files) (cs : List Call) (s : Registry) → IsWellFormed s → IsWellFormed (run fs cs s)
unfolding run
run-IsWellFormed fs [] s h = h
run-IsWellFormed fs (register root_str id ∷ cs) s h =
    run-IsWellFormed fs cs _ (register-IsWellFormed fs root_str id s h)
run-IsWellFormed fs (unregister id_or_path ∷ cs) s h =
    run-IsWellFormed fs cs _ (unregister-IsWellFormed fs id_or_path s h)

lookup-own :
    (k : Text) (ps : Projects) (p : ProjectContext)
    → HasOwnKeys ps
    → lookup k ps ≡ some p
    → p.id ≡ k
unfolding lookup
lookup-own k [] p h e = cc
lookup-own k ((i, q) ∷ ps) p (own, fresh, h) e =
    ground (arith, text_eq_iff i k, lookup-own k ps p h)

default_of_HasDefault :
    (fs : Files) (s : Registry) (d : Option Text)
    → s.default_project_id ≡ d
    → HasOwnKeys s.projects
    → HasDefault d s.projects
    → ((get_project fs none s ≡ err no_project_registered) × (s.projects ≡ []))
      ⊎ ((p : ProjectContext) × (get_project fs none s ≡ ok p) × (lookup p.id s.projects ≡ some p))
unfolding get_project
default_of_HasDefault fs s none e own h = inl (ground arith, h)
default_of_HasDefault fs s (some d) e own (p, found) =
    inr (p, ground arith, cc (lookup-own d s.projects p own found))

-- After any calls of `register_project` and `unregister_project` each project stands under its own
-- id, once, and the default id, if there is one, is registered; there is none only in the empty
-- registry.
pub registry-IsWellFormed : (fs : Files) (cs : List Call) → IsWellFormed (run fs cs empty)
registry-IsWellFormed fs cs = run-IsWellFormed fs cs empty empty-IsWellFormed

-- After any such calls `get_project(None)` gives a project that is registered under its own id, or
-- reports that there is none, and then the registry is empty: a default is never left dangling.
pub get_project-default :
    (fs : Files) (cs : List Call)
    → ((get_project fs none (run fs cs empty) ≡ err no_project_registered)
        × ((run fs cs empty).projects ≡ []))
      ⊎ ((p : ProjectContext) × (get_project fs none (run fs cs empty) ≡ ok p)
          × (lookup p.id (run fs cs empty).projects ≡ some p))
get_project-default fs cs =
    let h = registry-IsWellFormed fs cs in
    default_of_HasDefault fs (run fs cs empty) _ refl h.own h.default_known
