-- ===== src/DepsGraph/Within.antt =====
-- What a depth limit of src/tools/deps_graph/builder.rs keeps.
use mathlib.Core.List.{Memᴰ}
use nexus_intelli_core.Prelude.{
  ℕ, zero, suc, ◌+◌, ◌≤◌, true, List, [], ◌∷◌, Option, none, some, length, retain, any, All,
  mem-retain_iff, leb, ◌≡◌, refl, sym, ◌∙◌, inl, inr, arith, Bool-cases,
}
use nexus_intelli_core.Prelude.Text.{Text, text_eq, text_eq→eq}
use nexus_intelli_core.Json.{Fields, field, end, get_field}
use nexus_intelli_core.Json.Access.{◌>>=◌, is_some}
use nexus_intelli_core.Audit.{has_text}
use nexus_intelli_core.DepsGraph.Query.{QueryParams}
use nexus_intelli_core.DepsGraph.Depth.{
  keys, collect_neighbors, start_nodes, enqueue, contains_key, search, retain_fields,
  apply_depth_limit,
}
use nexus_intelli_core.DepsGraph.Queue.{
  unvisited, enqueue-bound, enqueue-All, enqueue-visited, enqueue-covers,
}

-- A node at so many steps from a starting node, each step to a neighbor that is a key.
pub data Within (fs : Fields) (p : QueryParams) : ℕ → Text → Type 0 where
  starting : {k : Text} → Memᴰ k (start_nodes fs p) → Within fs p 0 k
  further :
      {d : ℕ} {x y : Text}
      → Within fs p d x
      → Memᴰ y (collect_neighbors x fs p)
      → contains_key fs y ≡ true
      → Within fs p (suc d) y

all-mem : (P : Text → Type 0) (ns : List Text) → ((n : Text) → Memᴰ n ns → P n) → All P ns
all-mem P [] h = tt
all-mem P (n ∷ ns) h = (h n (Memᴰ.head refl), all-mem P ns (λ x i. h x (Memᴰ.tail i)))

mem-keys : (k : Text) (fs : Fields) → is_some (get_field k fs) ≡ true → Memᴰ k (keys fs)
unfolding get_field keys
mem-keys k end h = absurd (ground (arith, h))
mem-keys k (field j v fs) h = elim (Bool-cases (text_eq j k)) [
  | inl y ↦ Memᴰ.head (sym (text_eq→eq j k y))
  | inr n ↦ Memᴰ.tail (mem-keys k fs (sym (rw n refl) ∙ h))
]

start-key :
    (fs : Fields) (p : QueryParams) (n : Text) → Memᴰ n (start_nodes fs p) → Memᴰ n (keys fs)
unfolding start_nodes
start-key fs p n = scoped p.scope_path
  where
    scoped :
        (scope : Option Text)
        → Memᴰ n (elim scope as (λ _. List Text) [
          | none ↦ keys fs
          | some s ↦ elim (retain (λ k. has_text k s) (keys fs)) as (λ _. List Text) [
            | [] ↦ keys fs
            | k ∷ ks ↦ k ∷ ks
          ]
        ])
        → Memᴰ n (keys fs)
    scoped none i = i
    scoped (some s) i =
        found (retain (λ k. has_text k s) (keys fs))
          (λ j. ((mem-retain_iff (λ k. has_text k s) (keys fs) n).0 j).0) i
      where
        found :
            (r : List Text)
            → (Memᴰ n r → Memᴰ n (keys fs))
            → Memᴰ n (elim r as (λ _. List Text) [ [] ↦ keys fs | k ∷ ks ↦ k ∷ ks ])
            → Memᴰ n (keys fs)
        found [] f i = i
        found (k ∷ ks) f i = f i

module _ (fs : Fields) (p : QueryParams) (max_depth : ℕ) where
  abbrev pub IsNear : Text → Type 0
  IsNear k = (d : ℕ) × ((d ≤ max_depth) × Within fs p d k)

  abbrev IsQueued : Text × ℕ → Type 0
  IsQueued (n, d) = (d ≤ max_depth) × Within fs p d n

  -- The search ends, with nodes that are near, and among them all that were visited before.
  abbrev Found : ℕ → List Text → List (Text × ℕ) → Type 0
  Found fuel visited q =
      (v : List Text) × ((search fs p max_depth fuel visited q ≡ some v)
        × (All IsNear v × ((t : Text) → any (text_eq t) visited ≡ true → any (text_eq t) v ≡ true)))

  search-Found :
      (fuel : ℕ) (visited : List Text) (q : List (Text × ℕ))
      → length q + unvisited (keys fs) visited ≤ fuel
      → All IsNear visited × All IsQueued q
      → Found fuel visited q
  unfolding search
  search-Found zero visited [] b (h, k) = (visited, (refl, (h, λ t s. s)))
  search-Found (suc fuel) visited [] b (h, k) = (visited, (refl, (h, λ t s. s)))
  search-Found zero visited (e ∷ q) b h = absurd (omega (arith, b))
  search-Found (suc fuel) visited ((node, d) ∷ q) b (h, (k, ks)) =
      elim (Bool-cases (leb max_depth d)) [
        | inl y ↦
            let (v, (e, r)) = search-Found fuel visited q (omega (arith, b)) (h, ks) in
            (v, (rw y e, r))
        | inr n ↦
            let ns = collect_neighbors node fs p in
            let deep : suc d ≤ max_depth = ground (arith, n) in
            let a =
              all-mem (λ x. contains_key fs x ≡ true → IsNear x × IsQueued (x, suc d)) ns
                (λ x i c.
                  ((suc d, (deep, Within.further k.1 i c)), (deep, Within.further k.1 i c))) in
            let m =
              all-mem (λ x. contains_key fs x ≡ true → Memᴰ x (keys fs)) ns
                (λ x i c. mem-keys x fs c) in
            let inv =
              enqueue-All (contains_key fs) (suc d) IsNear IsQueued ns visited q a (h, ks) in
            let less =
              enqueue-bound (contains_key fs) (suc d) (keys fs) fuel ns visited q m
                (omega (arith, b)) in
            let deeper = enqueue (contains_key fs) (suc d) ns visited q in
            let (v, (e, (r, s))) = search-Found fuel deeper.0 deeper.1 less inv in
            (
              v,
              (
                rw n e,
                (r, λ t w. s t (enqueue-visited (contains_key fs) (suc d) t ns visited q w)),
              ),
            )
      ]

  unvisited-none : (ks : List Text) → unvisited ks [] ≤ length ks
  unfolding unvisited
  unvisited-none [] = omega arith
  unvisited-none (k ∷ ks) = omega (arith, unvisited-none ks)

  depth_limit-runs :
      (v : List Text)
      → p.depth ≡ some max_depth
      → search fs p max_depth
          (length (keys fs))
          (enqueue (λ k. true) 0 (start_nodes fs p) [] []).0
          (enqueue (λ k. true) 0 (start_nodes fs p) [] []).1
        ≡ some v
      → apply_depth_limit fs p ≡ some (retain_fields v fs)
  unfolding apply_depth_limit
  depth_limit-runs v limit e = limited p.depth limit
    where
      limited :
          (l : Option ℕ)
          → l ≡ some max_depth
          → elim l as (λ _. Option Fields) [
            | none ↦ some fs
            | some m ↦
                let begin = enqueue (λ k. true) 0 (start_nodes fs p) [] [] in
                search fs p m (length (keys fs)) begin.0 begin.1
                >>= (λ visited. some (retain_fields visited fs))
          ]
            ≡ some (retain_fields v fs)
      limited l h = rw (h, e) refl

  -- The depth limit always gives a result, the fields of the nodes that the search visits: each of
  -- them is a starting node or at most so many steps from one as the limit says, over keys only, and
  -- every starting node is among them.
  pub apply_depth_limit-IsNear :
      p.depth ≡ some max_depth
      → (v : List Text) × ((apply_depth_limit fs p ≡ some (retain_fields v fs))
          × (All IsNear v × All (λ k. any (text_eq k) v ≡ true) (start_nodes fs p)))
  apply_depth_limit-IsNear limit =
      let ns = start_nodes fs p in
      let begin = enqueue (λ k. true) 0 ns [] [] in
      let inv =
        enqueue-All (λ k. true) 0 IsNear IsQueued ns [] []
          (all-mem (λ n. true ≡ true → IsNear n × IsQueued (n, 0)) ns
            (λ n i c. ((0, (omega arith, Within.starting i)), (omega arith, Within.starting i))))
          (tt, tt) in
      let less =
        enqueue-bound (λ k. true) 0 (keys fs) (length (keys fs)) ns [] []
          (all-mem (λ n. true ≡ true → Memᴰ n (keys fs)) ns (λ n i c. start-key fs p n i))
          (omega (arith, unvisited-none (keys fs))) in
      let (v, (e, (near, kept))) = search-Found (length (keys fs)) begin.0 begin.1 less inv in
      (
        v,
        (
          depth_limit-runs v limit e,
          (near, starts ns v begin.0 kept (enqueue-covers (λ k. true) 0 ns [] [])),
        ),
      )
    where
      starts :
          (ns v w : List Text)
          → ((t : Text) → any (text_eq t) w ≡ true → any (text_eq t) v ≡ true)
          → All (λ n. true ≡ true → any (text_eq n) w ≡ true) ns
          → All (λ k. any (text_eq k) v ≡ true) ns
      starts [] v w f h = tt
      starts (n ∷ ns) v w f (k, h) = (f n (k refl), starts ns v w f h)
