-- ===== src/Tests/Trees.antt =====
-- Syntax trees on which the theorems about the predictor are applied.
use nexus_intelli_core.Prelude.{ℕ, List, [], ◌∷◌, ◌≡◌, false, ltb, ◌+◌, arith}
use nexus_intelli_core.Predictor.{Node, node, no_nodes, a_node, new_predictor, key_eq, kind_id}
use nexus_intelli_core.Predictor.Counts.{
  Counts, observe_trees, events_of_trees, observe_trees-Counts, events_of, events_of_children,
  sibling_events, one_if, new_predictor-Counts, key_count,
}
use nexus_intelli_core.Predictor.Pruning.{
  Floats, should_prune_subtree, observe-should_prune_subtree,
}

abbrev leaf : ℕ → Node
leaf k = node k no_nodes

abbrev two_children : Node
two_children = node 5 (a_node (leaf 7) (a_node (node 8 (a_node (leaf 7) no_nodes)) no_nodes))

abbrev roots : List Node
roots = two_children ∷ leaf 5 ∷ two_children ∷ []

abbrev whole_floats : Floats
whole_floats = record {
  F = ℕ;
  zero_f = 0;
  as_f64 = λ n. n;
  add_f = ◌+◌;
  div_f = λ a b. a;
  less_f = ltb;
}

observe_trees-Counts_example : Counts (observe_trees new_predictor roots) (events_of_trees roots [])
observe_trees-Counts_example = observe_trees-Counts new_predictor [] roots new_predictor-Counts

observe-should_prune_subtree_example :
    should_prune_subtree whole_floats (observe_trees new_predictor roots) 5 7 (9 ∷ []) 1 ≡ false
unfolding key_count events_of_trees events_of events_of_children sibling_events key_eq one_if
    kind_id
observe-should_prune_subtree_example =
    observe-should_prune_subtree whole_floats roots 5 7 (9 ∷ []) 1 (ground arith)
