-- ===== src/DepsGraph/Depth.antt =====
-- src/tools/deps_graph/builder.rs: the files kept by a depth limit. The search takes a node off its
-- queue in every round and each node enters the queue once, so that fuel for all keys is
-- enough.
use nexus_intelli_core.Prelude.{
  ℕ, zero, suc, Bool, true, not, ◌&&◌, List, [], ◌∷◌, ◌++◌, Option, none, some, length, retain, any,
  leb, if◌then◌else◌,
}
use nexus_intelli_core.Prelude.Text.{Text, codes, text_eq}
use nexus_intelli_core.Json.{Value, Fields, field, end, get, get_field, as_str, as_array}
use nexus_intelli_core.Json.Access.{◌>>=◌, unwrap_or, is_some}
use nexus_intelli_core.Audit.{has_text}
use nexus_intelli_core.DepsGraph.Query.{QueryParams}

unfoldable pub keys : Fields → List Text
keys end = []
keys (field k v fs) = k ∷ keys fs

unfoldable pub texts : List Value → List Text
texts [] = []
texts (v ∷ vs) =
    let rest = texts vs in elim (as_str v) as (λ _. List Text) [ none ↦ rest | some s ↦ s ∷ rest ]

-- The texts of an array in the object of a node.
unfoldable pub texts_at : Text → Option Value → List Text
unfolding get texts
texts_at key obj = texts (unwrap_or ((obj >>= get key) >>= as_array) [])

unfoldable pub outbound : QueryParams → Option Value → List Text
unfolding texts_at
outbound params obj =
    texts_at (codes "internal") obj
    ++ texts_at (codes "restricted") obj
    ++ (if params.include_external then texts_at (codes "external") obj else [])
    ++ (if params.include_unresolved then texts_at (codes "unresolved") obj else [])

unfoldable pub collect_neighbors : Text → Fields → QueryParams → List Text
unfolding outbound texts_at get_field text_eq
collect_neighbors node file_deps params =
    let obj = get_field node file_deps in
    if text_eq params.direction (codes "inbound")
    then texts_at (codes "dependents") obj
    else if text_eq params.direction (codes "both")
    then outbound params obj ++ texts_at (codes "dependents") obj
    else outbound params obj

-- The keys that have the scope in them, or all.
unfoldable pub start_nodes : Fields → QueryParams → List Text
unfolding keys has_text
start_nodes file_deps params = elim (params.scope_path) [
  | none ↦ keys file_deps
  | some scope ↦ elim (retain (λ k. has_text k scope) (keys file_deps)) as (λ _. List Text) [
    | [] ↦ keys file_deps
    | k ∷ ks ↦ k ∷ ks
  ]
]

-- Puts those of the given nodes that pass a test and are not visited into the queue, at a depth.
unfoldable pub enqueue :
    (Text → Bool) → ℕ → List Text → List Text → List (Text × ℕ) → List Text × List (Text × ℕ)
unfolding text_eq
enqueue allowed d [] visited q = (visited, q)
enqueue allowed d (n ∷ ns) visited q =
    let skipped = enqueue allowed d ns visited q in
    let entered = enqueue allowed d ns (n ∷ visited) (q ++ ((n, d) ∷ [])) in
    if allowed n && not (any (text_eq n) visited) then entered else skipped

unfoldable pub contains_key : Fields → Text → Bool
unfolding get_field
contains_key file_deps k = is_some (get_field k file_deps)

module _ (file_deps : Fields) (params : QueryParams) (max_depth : ℕ) where
  -- The loop over the queue: the visited nodes.
  unfoldable pub search : ℕ → List Text → List (Text × ℕ) → Option (List Text)
  unfolding enqueue collect_neighbors contains_key
  search fuel visited [] = some visited
  search zero visited (e ∷ q) = none
  search (suc fuel) visited ((node, d) ∷ q) =
      let deeper =
        enqueue (contains_key file_deps) (suc d) (collect_neighbors node file_deps params) visited
          q in
      let stopped = search fuel visited q in
      let going = search fuel deeper.0 deeper.1 in if leb max_depth d then stopped else going

unfoldable pub retain_fields : List Text → Fields → Fields
unfolding text_eq
retain_fields visited end = end
retain_fields visited (field k v fs) =
    let rest = retain_fields visited fs in if any (text_eq k) visited then field k v rest else rest

unfoldable pub apply_depth_limit : Fields → QueryParams → Option Fields
unfolding start_nodes enqueue search retain_fields keys
apply_depth_limit file_deps params = elim (params.depth) [
  | none ↦ some file_deps
  | some max_depth ↦
      let start = enqueue (λ k. true) 0 (start_nodes file_deps params) [] [] in
      search file_deps params max_depth (length (keys file_deps)) start.0 start.1
      >>= (λ visited. some (retain_fields visited file_deps))
]
