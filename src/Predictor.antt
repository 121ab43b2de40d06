-- ===== src/Predictor.antt =====
-- src/analyzer/predictor.rs: the counters of the Markov predictor. A hash map is an association
-- list with one entry for a key, a syntax tree the kinds of its nodes; a counter is a `u64`, which
-- wraps around. The floating-point operations come from outside.
pub mod Tables
pub mod Counts
pub mod Pruning
use nexus_intelli_core.Prelude.{
  ℕ, ◌+◌, ◌%◌, ◌^◌, Bool, true, false, ◌&&◌, List, [], ◌∷◌, ◌++◌, Option, none, some, ◌==◌, ltb,
  if◌then◌else◌,
}
use nexus_intelli_core.Predictor.Tables.{Table, update, get, or_zero}

-- `(parent_kind_id, current_kind_id)`.
pub record Key : Type 0 where
  pub parent : ℕ
  pub current : ℕ

unfoldable pub key_eq : Key → Key → Bool
key_eq a b = Key.parent a == Key.parent b && Key.current a == Key.current b

-- `+= 1` on a `u64`.
unfoldable pub add_one : ℕ → ℕ
add_one n = (n + 1) % 2 ^ 64

pub record MarkovAstPredictor : Type 0 where
  pub transitions : Table Key (Table ℕ ℕ)
  pub descendants : Table Key (Table ℕ ℕ)
  pub totals : Table Key ℕ

abbrev pub new_predictor : MarkovAstPredictor
new_predictor = record { transitions = []; descendants = []; totals = [] }

unfoldable pub count_one : ℕ → Table ℕ ℕ → Table ℕ ℕ
count_one kind t = update ◌==◌ kind (λ c. add_one (or_zero c)) t

unfoldable pub or_empty : Option (Table ℕ ℕ) → Table ℕ ℕ
or_empty none = []
or_empty (some t) = t

unfoldable pub observe_transition :
    MarkovAstPredictor → (parent current next : ℕ) → MarkovAstPredictor
observe_transition self parent current next =
    let key : Key = record { parent = parent; current = current } in
    record {
      transitions =
          update key_eq key (λ t. count_one next (or_empty t))
            (MarkovAstPredictor.transitions self);
      descendants = MarkovAstPredictor.descendants self;
      totals = update key_eq key (λ c. add_one (or_zero c)) (MarkovAstPredictor.totals self);
    }

mutual
  -- A node of the syntax tree: its kind and its children.
  pub data Node : Type 0 where
    node : (kind_id : ℕ) → Nodes → Node

  pub data Nodes : Type 0 where
    no_nodes : Nodes
    a_node : Node → Nodes → Nodes

unfoldable pub kind_id : Node → ℕ
kind_id (node k _) = k

unfoldable pub count_all : List ℕ → Table ℕ ℕ → Table ℕ ℕ
count_all [] t = t
count_all (kind ∷ kinds) t = count_all kinds (count_one kind t)

unfoldable pub observe_sibling : MarkovAstPredictor → ℕ → Option ℕ → ℕ → MarkovAstPredictor
observe_sibling self current none child = self
observe_sibling self current (some prev) child = observe_transition self current prev child

unfoldable pub count_descendants : MarkovAstPredictor → Key → List ℕ → MarkovAstPredictor
count_descendants self key kinds = record {
  transitions = MarkovAstPredictor.transitions self;
  descendants =
      update key_eq key (λ t. count_all kinds (or_empty t)) (MarkovAstPredictor.descendants self);
  totals = MarkovAstPredictor.totals self;
}

unfoldable mutual
  pub traverse_and_observe : MarkovAstPredictor → ℕ → Node → MarkovAstPredictor × List ℕ
  traverse_and_observe self parent (node current children) =
      let (after, found) = traverse_children self parent current none children in
      (
        count_descendants after (record { parent = parent; current = current }) (current ∷ found),
        current ∷ found,
      )

  -- The loop over the children, with `prev_child_kind`.
  pub traverse_children :
      MarkovAstPredictor → ℕ → ℕ → Option ℕ → Nodes → MarkovAstPredictor × List ℕ
  traverse_children self parent current prev no_nodes = (self, [])
  traverse_children self parent current prev (a_node child children) =
      let s = observe_transition self parent current (kind_id child) in
      let s = observe_sibling s current prev (kind_id child) in
      let (s, kinds) = traverse_and_observe s current child in
      let (s, rest) = traverse_children s parent current (some (kind_id child)) children in
      (s, kinds ++ rest)

unfoldable pub observe_tree : MarkovAstPredictor → Node → MarkovAstPredictor
observe_tree self root = (traverse_and_observe self 0 root).0

unfoldable pub sum_totals : Table Key ℕ → ℕ
sum_totals [] = 0
sum_totals ((_, n) ∷ t) = (n + sum_totals t) % 2 ^ 64

unfoldable pub total_observations : MarkovAstPredictor → ℕ
total_observations self = sum_totals (MarkovAstPredictor.totals self)
