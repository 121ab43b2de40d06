-- ===== src/Registry.antt =====
-- The project registry of src/state/mod.rs, with src/state/project.rs, src/state/session.rs and
-- `validate_path` and `canonical_root` of src/state/resolver.rs. The locks are not modelled: each
-- operation takes the state and returns the new one. A canonical path is the list of its components.
pub mod Keys
pub mod Invariant
pub mod Refinement
pub mod Confinement
use nexus_intelli_core.Prelude.{
  ℕ, Bool, true, false, not, ◌&&◌, List, [], ◌∷◌, map, Option, none, some, length, ltb, find,
  retain, ◌≡◌, ◌⊎◌, inl, inr, refl, if◌then◌else◌,
}
use nexus_intelli_core.Prelude.Text.{Text, codes, text_eq}

abbrev pub FilePath : Type 0
FilePath = List Text

unfoldable pub path_eq : FilePath → FilePath → Bool
path_eq [] [] = true
path_eq (x ∷ xs) (y ∷ ys) = text_eq x y && path_eq xs ys
path_eq _ _ = false

-- `Path::starts_with`, component by component.
unfoldable pub starts_with : FilePath → FilePath → Bool
starts_with path [] = true
starts_with [] (_ ∷ _) = false
starts_with (x ∷ xs) (y ∷ ys) = text_eq x y && starts_with xs ys

-- `Path::file_name`: the last component.
unfoldable pub file_name : FilePath → Option Text
file_name [] = none
file_name (x ∷ []) = some x
file_name (x ∷ y ∷ ys) = file_name (y ∷ ys)

-- The file system and the parts of a project that the registry only carries along.
pub record Files : Type 0 where
  -- `std::fs::canonicalize` of a path given as text
  pub canonicalize : Text → Option FilePath
  -- `root.join(requested)`, canonicalized
  pub canonicalize_in : FilePath → Text → Option FilePath
  pub is_relative : Text → Bool
  -- `FileIndex::build` succeeds
  pub index_builds : FilePath → Bool
  pub has_angular_json : FilePath → Bool
  -- the file system ignores case, and the folding that is used then
  pub ignores_case : Bool
  pub fold_case : FilePath → FilePath

pub record ProjectContext : Type 0 where
  pub id : Text
  pub root : FilePath
  pub is_angular_project : Bool

-- Why an operation fails, with what its `anyhow` message names; the wording is not modelled.
pub data Failure : Type 0 where
  cannot_canonicalise : Text → Failure
  index_failed : FilePath → Failure
  project_not_found : Text → Failure
  no_project_registered : Failure
  default_not_found : Text → Failure
  path_inaccessible : Text → Failure
  outside_root : Text → FilePath → Failure

-- `anyhow::Result`.
pub data Result {ℓ} (T : Type ℓ) : Type ℓ where
  err : Failure → Result T
  ok : T → Result T

pub Result-cases {ℓ} :
    {T : Type ℓ} (r : Result T) → ((t : T) × (r ≡ ok t)) ⊎ ((f : Failure) × (r ≡ err f))
Result-cases (ok t) = inl (t, refl)
Result-cases (err f) = inr (f, refl)

-- The operator `?`: the rest of the body runs on a value only.
infixl 5 ◌>>=◌
abbrev pub ◌>>=◌ {κ ℓ} : {S : Type κ} → {T : Type ℓ} → Result S → (S → Result T) → Result T
err failure >>= rest = err failure
ok value >>= rest = rest value

infixl 5 ◌>>◌
abbrev pub ◌>>◌ {κ} : {T : Type κ} → Result (Unit {0}) → Result T → Result T
check >> rest = check >>= λ _. rest

abbrev pub ok_or {ℓ} : {A : Type ℓ} → Option A → Failure → Result A
ok_or none e = err e
ok_or (some a) e = ok a

abbrev pub Projects : Type 0
Projects = List (Text × ProjectContext)

unfoldable pub lookup : Text → Projects → Option ProjectContext
lookup k [] = none
lookup k ((j, p) ∷ ps) = if text_eq j k then some p else lookup k ps

-- `HashMap::insert`. The place of a new entry in the iteration order is the table's choice.
unfoldable pub insert : Text → ProjectContext → Projects → Projects
insert k p [] = (k, p) ∷ []
insert k p ((j, q) ∷ ps) = if text_eq j k then (j, p) ∷ ps else (j, q) ∷ insert k p ps

unfoldable pub remove : Text → Projects → Projects
remove k [] = []
remove k ((j, q) ∷ ps) = if text_eq j k then ps else (j, q) ∷ remove k ps

unfoldable pub find_root : FilePath → Projects → Option (Text × ProjectContext)
unfolding path_eq
find_root root ps = find (λ e. path_eq e.1.root root) ps

-- `max_by_key` on the number of components: of equals the last.
deeper : ProjectContext → Option ProjectContext → ProjectContext
deeper p none = p
deeper p (some q) = if ltb (length q.root) (length p.root) then p else q

unfoldable pub longest_root_match : Projects → FilePath → Option ProjectContext
unfolding deeper
longest_root_match [] canonical = none
longest_root_match ((k, p) ∷ ps) canonical =
    let best = longest_root_match ps canonical in
    if starts_with canonical p.root then some (deeper p best) else best

-- The same maximum over the case-folded paths.
unfoldable pub folded_root_match :
    (FilePath → FilePath) → Projects → FilePath → Option ProjectContext
unfolding deeper
folded_root_match fold [] folded = none
folded_root_match fold ((k, p) ∷ ps) folded =
    let best = folded_root_match fold ps folded in
    if starts_with folded (fold p.root) then some (deeper p best) else best

pub record Registry : Type 0 where
  pub projects : Projects
  pub default_project_id : Option Text

abbrev pub empty : Registry
empty = record { projects = []; default_project_id = none }

abbrev pub or_default : Option Text → Text → Option Text
or_default none id = some id
or_default (some d) id = some d

abbrev pub first_key : Projects → Option Text
first_key [] = none
first_key ((k, p) ∷ ps) = some k

-- The id given, else the name of the root's last component, else the text given for the root.
abbrev project_id : Option Text → FilePath → Text → Text
project_id (some id) root root_str = id
project_id none root root_str = elim (file_name root) [ some n ↦ n | none ↦ root_str ]

abbrev pub is_default : Option Text → Text → Bool
is_default none id = false
is_default (some d) id = text_eq d id

module _ (fs : Files) where
  open fs use {canonicalize, canonicalize_in, is_relative, index_builds, has_angular_json}

  unfoldable pub canonical_root : Text → Result FilePath
  canonical_root path = ok_or (canonicalize path) (cannot_canonicalise path)

  build : FilePath → Result (Unit {0})
  build root = if index_builds root then ok tt else err (index_failed root)

  -- `ProjectContext::new`.
  unfoldable pub new_project : Text → Option Text → Result ProjectContext
  unfolding canonical_root file_name build
  new_project root_str id = do
    root ← canonical_root root_str
    build root
    ok (record {
      id = project_id id root root_str;
      root = root;
      is_angular_project = has_angular_json root;
    })

  unfoldable pub register_project : Text → Option Text → Registry → Registry × Result ProjectContext
  unfolding new_project insert
  register_project root_str id s = elim (new_project root_str id) [
    | err e ↦ (s, err e)
    | ok project ↦ (
      record {
        projects = insert project.id project s.projects;
        default_project_id = or_default s.default_project_id project.id;
      },
      ok project,
    )
  ]

  -- The id that `unregister_project` removes.
  target_id : Text → Registry → Option Text
  unfolding find_root lookup
  target_id id_or_path s = elim (lookup id_or_path s.projects) [
    | some p ↦ some id_or_path
    | none ↦ elim (canonicalize id_or_path) [
      | none ↦ none
      | some canonical ↦ elim (find_root canonical s.projects) [ none ↦ none | some e ↦ some e.0 ]
    ]
  ]

  -- The caches are cleared for the removed root, see Caches.
  unfoldable pub unregister_project : Text → Registry → Registry × Option FilePath
  unfolding target_id lookup remove
  unregister_project id_or_path s = elim (target_id id_or_path s) [
    | none ↦ (s, none)
    | some id ↦ elim (lookup id s.projects) [
      | none ↦ (s, none)
      | some removed ↦
          let rest = remove id s.projects in
          (
            record {
              projects = rest;
              default_project_id =
                  if is_default s.default_project_id id
                  then first_key rest
                  else s.default_project_id;
            },
            some removed.root,
          )
    ]
  ]

  default_project : Registry → Result ProjectContext
  unfolding lookup
  default_project s = elim s.default_project_id [
    | none ↦ err no_project_registered
    | some id ↦ ok_or (lookup id s.projects) (default_not_found id)
  ]

  named_project : Text → Registry → Result ProjectContext
  unfolding lookup find_root canonical_root
  named_project k s = elim (lookup k s.projects) [
    | some p ↦ ok p
    | none ↦ elim (canonical_root k) [
      | err e ↦ err (project_not_found k)
      | ok canonical ↦ elim (find_root canonical s.projects) [
        | none ↦ err (project_not_found k)
        | some e ↦ ok e.1
      ]
    ]
  ]

  unfoldable pub get_project : Option Text → Registry → Result ProjectContext
  unfolding named_project default_project
  get_project (some k) s = named_project k s
  get_project none s = default_project s

  -- `PathResolver::validate_path` below `ProjectContext::validate_path`.
  unfoldable pub validate_path : ProjectContext → Text → Result FilePath
  validate_path p requested =
      let absolute =
        if is_relative requested
        then canonicalize_in p.root requested
        else canonicalize requested in
      elim absolute [
        | none ↦ err (path_inaccessible requested)
        | some canonical ↦
            if starts_with canonical p.root
            then ok canonical
            else err (outside_root requested p.root)
      ]

  fallback_for_path : Text → Registry → Result (ProjectContext × FilePath)
  unfolding get_project validate_path
  fallback_for_path file_path s = do
    default_proj ← get_project none s
    validated ← validate_path default_proj file_path
    ok (default_proj, validated)

  unfoldable pub resolve_project_for_path : Text → Registry → Result (ProjectContext × FilePath)
  unfolding longest_root_match fallback_for_path
  resolve_project_for_path file_path s = elim (canonicalize file_path) [
    | none ↦ fallback_for_path file_path s
    | some canonical ↦ elim (longest_root_match s.projects canonical) [
      | some best ↦ ok (best, canonical)
      | none ↦ fallback_for_path file_path s
    ]
  ]

  unfoldable pub project_containing : Text → Registry → Option ProjectContext
  unfolding longest_root_match folded_root_match
  project_containing path s = elim (canonicalize path) [
    | none ↦ none
    | some canonical ↦ elim (longest_root_match s.projects canonical) [
      | some found ↦ some found
      | none ↦
          if fs.ignores_case
          then folded_root_match fs.fold_case s.projects (fs.fold_case canonical)
          else none
    ]
  ]

  active_or_default : Option Text → Registry → Result ProjectContext
  unfolding get_project
  active_or_default none s = get_project none s
  active_or_default (some active) s = elim (get_project (some active) s) [
    | ok proj ↦ ok proj
    | err e ↦ get_project none s
  ]

  -- The session is its active project id.
  unfoldable pub resolve_project : Option Text → Option Text → Registry → Result ProjectContext
  unfolding get_project active_or_default
  resolve_project session (some k) s = get_project (some k) s
  resolve_project session none s = active_or_default session s
