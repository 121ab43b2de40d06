-- ===== src/DepsGraph/Queue.antt =====
-- The queue of the search in src/tools/deps_graph/builder.rs.
use mathlib.Core.List.{Memᴰ}
use mathlib.Core.Path.{subst}
use nexus_intelli_core.Prelude.{
  ℕ, suc, ◌+◌, ◌≤◌, Bool, true, false, not, ◌&&◌, List, [], ◌∷◌, ◌++◌, length, length-append, any,
  All, All-append, ◌≡◌, refl, sym, inl, inr, arith, Bool-cases, if◌then◌else◌,
}
use nexus_intelli_core.Prelude.Text.{Text, text_eq, text_eq_refl}
use nexus_intelli_core.DepsGraph.Depth.{enqueue}

-- How many of the nodes are not visited.
unfoldable pub unvisited : List Text → List Text → ℕ
unvisited [] visited = 0
unvisited (k ∷ ks) visited = (if any (text_eq k) visited then 0 else 1) + unvisited ks visited

unvisited-le :
    (ks visited : List Text) (n : Text) → unvisited ks (n ∷ visited) ≤ unvisited ks visited
unfolding unvisited
unvisited-le [] visited n = omega arith
unvisited-le (k ∷ ks) visited n = ground (arith, unvisited-le ks visited n)

unvisited-lt :
    (ks visited : List Text) (n : Text)
    → Memᴰ n ks
    → any (text_eq n) visited ≡ false
    → suc (unvisited ks (n ∷ visited)) ≤ unvisited ks visited
unfolding unvisited
unvisited-lt [] visited n i h = elim i [ ]
unvisited-lt (k ∷ ks) visited n (Memᴰ.head e) h =
    let same : text_eq k n ≡ true = subst (λ x. text_eq x n ≡ true) e (text_eq_refl n) in
    let new : any (text_eq k) visited ≡ false = subst (λ x. any (text_eq x) visited ≡ false) e h in
    ground (arith, unvisited-le ks visited n, same, new)
unvisited-lt (k ∷ ks) visited n (Memᴰ.tail i) h = ground (arith, unvisited-lt ks visited n i h)

module _ (allowed : Text → Bool) (d : ℕ) where
  enqueue-enter :
      (n : Text) (ns visited : List Text) (q : List (Text × ℕ))
      → allowed n ≡ true
      → any (text_eq n) visited ≡ false
      → enqueue allowed d (n ∷ ns) visited q
        ≡ enqueue allowed d ns (n ∷ visited) (q ++ ((n, d) ∷ []))
  unfolding enqueue
  enqueue-enter n ns visited q h k = rw (h, k) refl

  enqueue-skip :
      (n : Text) (ns visited : List Text) (q : List (Text × ℕ))
      → (allowed n && not (any (text_eq n) visited)) ≡ false
      → enqueue allowed d (n ∷ ns) visited q ≡ enqueue allowed d ns visited q
  unfolding enqueue
  enqueue-skip n ns visited q h = rw h refl

  -- A property of lists of visited nodes and queues that every entering node keeps.
  enqueue-keeps :
      (P : List Text → List (Text × ℕ) → Type 0) (E : Text → Type 0)
      → ((n : Text) (visited : List Text) (q : List (Text × ℕ))
          → E n
          → allowed n ≡ true
          → any (text_eq n) visited ≡ false
          → P visited q
          → P (n ∷ visited) (q ++ ((n, d) ∷ [])))
      → (ns visited : List Text) (q : List (Text × ℕ)) → All E ns
      → P visited q
      → P (enqueue allowed d ns visited q).0 (enqueue allowed d ns visited q).1
  unfolding enqueue
  enqueue-keeps P E enter [] visited q a p = p
  enqueue-keeps P E enter (n ∷ ns) visited q (e, a) p =
      elim (Bool-cases (allowed n && not (any (text_eq n) visited))) [
        | inl y ↦
            let h : allowed n ≡ true = ground (arith, y) in
            let k : any (text_eq n) visited ≡ false = ground (arith, y) in
            subst (λ r. P r.0 r.1) (sym (enqueue-enter n ns visited q h k))
              (enqueue-keeps P E enter ns (n ∷ visited) (q ++ ((n, d) ∷ [])) a
                (enter n visited q e h k p))
        | inr no_entry ↦
            subst (λ r. P r.0 r.1) (sym (enqueue-skip n ns visited q no_entry))
              (enqueue-keeps P E enter ns visited q a p)
      ]

  -- The queue grows by no more than the unvisited nodes become fewer.
  pub enqueue-bound :
      (ks : List Text) (bound : ℕ) (ns visited : List Text) (q : List (Text × ℕ))
      → All (λ n. allowed n ≡ true → Memᴰ n ks) ns
      → length q + unvisited ks visited ≤ bound
      → length (enqueue allowed d ns visited q).1 + unvisited ks (enqueue allowed d ns visited q).0
        ≤ bound
  enqueue-bound ks bound ns visited q =
      enqueue-keeps (λ v r. length r + unvisited ks v ≤ bound) (λ n. allowed n ≡ true → Memᴰ n ks)
        (λ n v r e h k p.
          omega (arith, unvisited-lt ks v n (e h) k, length-append r ((n, d) ∷ []), p))
        ns visited q

  -- What holds of the nodes that enter holds of all visited and all in the queue.
  pub enqueue-All :
      (V : Text → Type 0) (Q : Text × ℕ → Type 0) (ns visited : List Text) (q : List (Text × ℕ))
      → All (λ n. allowed n ≡ true → V n × Q (n, d)) ns
      → All V visited × All Q q
      → All V (enqueue allowed d ns visited q).0 × All Q (enqueue allowed d ns visited q).1
  enqueue-All V Q ns visited q =
      enqueue-keeps (λ v r. All V v × All Q r) (λ n. allowed n ≡ true → V n × Q (n, d))
        (λ n v r e h k p. (((e h).0, p.0), All-append Q r ((n, d) ∷ []) p.1 ((e h).1, tt))) ns
        visited q

  pub enqueue-visited :
      (t : Text) (ns visited : List Text) (q : List (Text × ℕ))
      → any (text_eq t) visited ≡ true
      → any (text_eq t) (enqueue allowed d ns visited q).0 ≡ true
  unfolding enqueue
  enqueue-visited t [] visited q h = h
  enqueue-visited t (n ∷ ns) visited q h =
      elim (Bool-cases (allowed n && not (any (text_eq n) visited))) [
        | inl y ↦
            rw (enqueue-enter n ns visited q (ground (arith, y)) (ground (arith, y)))
              (enqueue-visited t ns (n ∷ visited) (q ++ ((n, d) ∷ [])) (ground (arith, h)))
        | inr no_entry ↦
            rw (enqueue-skip n ns visited q no_entry) (enqueue-visited t ns visited q h)
      ]

  -- Every allowed node is visited then.
  pub enqueue-covers :
      (ns visited : List Text) (q : List (Text × ℕ))
      → All (λ n. allowed n ≡ true → any (text_eq n) (enqueue allowed d ns visited q).0 ≡ true) ns
  unfolding enqueue
  enqueue-covers [] visited q = tt
  enqueue-covers (n ∷ ns) visited q =
      elim (Bool-cases (allowed n && not (any (text_eq n) visited))) [
        | inl y ↦
            subst (λ r. All (λ x. allowed x ≡ true → any (text_eq x) r.0 ≡ true) (n ∷ ns))
              (sym (enqueue-enter n ns visited q (ground (arith, y)) (ground (arith, y))))
              (
                λ h.
                    enqueue-visited n ns (n ∷ visited) (q ++ ((n, d) ∷ []))
                      (rw (text_eq_refl n) refl),
                enqueue-covers ns (n ∷ visited) (q ++ ((n, d) ∷ [])),
              )
        | inr no_entry ↦
            subst (λ r. All (λ x. allowed x ≡ true → any (text_eq x) r.0 ≡ true) (n ∷ ns))
              (sym (enqueue-skip n ns visited q no_entry))
              (
                (λ h. enqueue-visited n ns visited q (ground (arith, h, no_entry))),
                enqueue-covers ns visited q,
              )
      ]
