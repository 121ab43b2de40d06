-- ===== src/Predictor/Pruning.antt =====
-- src/analyzer/predictor.rs: what the counters decide. The arithmetic of `f64` comes from outside.
use nexus_intelli_core.Prelude.{
  ℕ, ◌%◌, ◌^◌, ◌<◌, Bool, false, List, [], ◌∷◌, Option, none, some, ◌==◌, ltb, ◌≡◌, refl, arith,
  if◌then◌else◌,
}
use nexus_intelli_core.Predictor.Tables.{Table, get, or_zero}
use nexus_intelli_core.Predictor.{Key, key_eq, MarkovAstPredictor, new_predictor, Node}
use nexus_intelli_core.Predictor.Counts.{
  Counts, key_count, total_count, observe_trees, events_of_trees, observe_trees-Counts,
  new_predictor-Counts,
}

-- `f64`, as far as the predictor uses it.
pub record Floats : Type 1 where
  pub F : Type 0
  pub zero_f : F
  pub as_f64 : ℕ → F
  pub add_f : F → F → F
  pub div_f : F → F → F
  pub less_f : F → F → Bool

few : (m n : ℕ) → m ≡ n % 2 ^ 64 → n < 3 → m < 3
few m n e h = omega arith

module _ (fs : Floats) where
  unfoldable pub target_prob_sum : Table ℕ ℕ → ℕ → List ℕ → Floats.F fs → Floats.F fs
  target_prob_sum desc_map total [] acc = acc
  target_prob_sum desc_map total (target ∷ targets) acc =
      target_prob_sum desc_map total targets (elim (get ◌==◌ target desc_map) [
        | none ↦ acc
        | some count ↦
            Floats.add_f fs acc (Floats.div_f fs (Floats.as_f64 fs count) (Floats.as_f64 fs total))
      ])

  unfoldable pub prune_with : Option (Table ℕ ℕ) → Option ℕ → List ℕ → Floats.F fs → Bool
  prune_with (some desc_map) (some total) target_kinds threshold =
      if ltb total 3
      then false
      else Floats.less_f fs (target_prob_sum desc_map total target_kinds (Floats.zero_f fs))
          threshold
  prune_with _ _ target_kinds threshold = false

  unfoldable pub should_prune_subtree :
      MarkovAstPredictor → (parent current : ℕ) → List ℕ → Floats.F fs → Bool
  should_prune_subtree self parent current target_kinds threshold =
      let key : Key = record { parent = parent; current = current } in
      prune_with (get key_eq key (MarkovAstPredictor.descendants self))
        (get key_eq key (MarkovAstPredictor.totals self)) target_kinds threshold

  prune_with-few :
      (d : Option (Table ℕ ℕ)) (t : Option ℕ) (ks : List ℕ) (x : Floats.F fs)
      → or_zero t < 3
      → prune_with d t ks x ≡ false
  unfolding prune_with or_zero
  prune_with-few none none ks x h = refl
  prune_with-few none (some n) ks x h = refl
  prune_with-few (some d) none ks x h = refl
  prune_with-few (some d) (some n) ks x h = ground arith

  -- After any trees, a subtree is never pruned in a context that occurs in fewer than three of
  -- their transitions, whatever the threshold.
  pub observe-should_prune_subtree :
      (roots : List Node) (parent current : ℕ) (targets : List ℕ) (threshold : Floats.F fs)
      → key_count (record { parent = parent; current = current }) (events_of_trees roots []) < 3
      → should_prune_subtree (observe_trees new_predictor roots) parent current targets threshold
        ≡ false
  unfolding should_prune_subtree total_count
  observe-should_prune_subtree roots p c ks x h = prune_with-few _ _ ks x (
      few _ _
        (Counts.totals (observe_trees-Counts _ [] roots new_predictor-Counts)
          (record { parent = p; current = c }))
        h)
