-- ===== src/Predictor/Counts.antt =====
-- src/analyzer/predictor.rs: the counters against the list of the observed transitions.
use nexus_intelli_core.Prelude.{
  ℕ, ◌+◌, ◌%◌, ◌^◌, suc, Bool, true, false, ◌&&◌, List, [], ◌∷◌, ◌++◌, Option, none, some, ◌==◌,
  ◌≡◌, ◌↔◌, refl, ap, ◌∙◌, inl, inr, arith, ==_iff, Bool-cases, length, if◌then◌else◌,
}
use nexus_intelli_core.Predictor.Tables.{Table, update, get, or_zero, get-update}
use nexus_intelli_core.Predictor.{
  Key, key_eq, add_one, MarkovAstPredictor, count_one, or_empty, observe_transition, Node, Nodes,
  node, no_nodes, a_node, kind_id, count_descendants, observe_sibling, traverse_and_observe,
  traverse_children, observe_tree, new_predictor, sum_totals, total_observations,
}

pub key_eq_iff : (a b : Key) → (key_eq a b ≡ true) ↔ (a ≡ b)
unfolding key_eq
key_eq_iff a b = ground arith

-- An observed transition: its context and the kind that came next.
pub record Event : Type 0 where
  pub key : Key
  pub next : ℕ

unfoldable pub one_if : Bool → ℕ
one_if true = 1
one_if false = 0

-- How many of the events have the context, the latest event first.
unfoldable pub key_count : Key → List Event → ℕ
key_count k [] = 0
key_count k (e ∷ es) = one_if (key_eq (Event.key e) k) + key_count k es

unfoldable pub event_count : Key → ℕ → List Event → ℕ
event_count k n [] = 0
event_count k n (e ∷ es) = one_if (key_eq (Event.key e) k && Event.next e == n) + event_count k n es

unfoldable pub next_count : MarkovAstPredictor → Key → ℕ → ℕ
next_count self k n =
    or_zero (get ◌==◌ n (or_empty (get key_eq k (MarkovAstPredictor.transitions self))))

unfoldable pub total_count : MarkovAstPredictor → Key → ℕ
total_count self k = or_zero (get key_eq k (MarkovAstPredictor.totals self))

-- Every counter is the number of the events it stands for, as a `u64`.
pub record Counts (self : MarkovAstPredictor) (es : List Event) : Type 0 where
  pub totals : (k : Key) → total_count self k ≡ key_count k es % 2 ^ 64
  pub nexts : (k : Key) (n : ℕ) → next_count self k n ≡ event_count k n es % 2 ^ 64
  pub sum : total_observations self ≡ length es % 2 ^ 64

add_one-mod : (m n : ℕ) → m ≡ n % 2 ^ 64 → add_one m ≡ (1 + n) % 2 ^ 64
unfolding add_one
add_one-mod m n e = rw e (omega arith)

abbrev pub event : ℕ → ℕ → ℕ → Event
event parent current next = record {
  key = record { parent = parent; current = current };
  next = next;
}

total_count-observe :
    (self : MarkovAstPredictor) (p c n : ℕ) (k : Key)
    → total_count (observe_transition self p c n) k ≡ (
        if key_eq (record { parent = p; current = c }) k
        then add_one (total_count self k)
        else total_count self k)
unfolding total_count observe_transition or_zero
total_count-observe self p c n k =
    rw
      (get-update key_eq key_eq_iff (record { parent = p; current = c }) k
        (λ x. add_one (or_zero x)) (MarkovAstPredictor.totals self))
      (ground arith)

next_count-observe :
    (self : MarkovAstPredictor) (p c n : ℕ) (k : Key) (m : ℕ)
    → next_count (observe_transition self p c n) k m ≡ (
        if key_eq (record { parent = p; current = c }) k && n == m
        then add_one (next_count self k m)
        else next_count self k m)
unfolding next_count observe_transition or_zero or_empty count_one
next_count-observe self p c n k m =
    rw
      (get-update key_eq key_eq_iff (record { parent = p; current = c }) k
        (λ x. count_one n (or_empty x)) (MarkovAstPredictor.transitions self))
      (elim (Bool-cases (key_eq (record { parent = p; current = c }) k)) [
        | inl h ↦
            rw (h, count_one)
              (rw
                (get-update ◌==◌ ==_iff n m (λ x. add_one (or_zero x))
                  (or_empty (get key_eq k (MarkovAstPredictor.transitions self))))
                (ground arith))
        | inr h ↦ rw h refl
      ])

sum-update :
    (k : Key) (t : Table Key ℕ)
    → sum_totals (update key_eq k (λ c. add_one (or_zero c)) t) ≡ (1 + sum_totals t) % 2 ^ 64
unfolding sum_totals update or_zero add_one
sum-update k [] = refl
sum-update k ((k', v) ∷ t) = ground (arith, sum-update k t)

total-step :
    (self : MarkovAstPredictor) (es : List Event) (p c n : ℕ)
    → Counts self es
    → (k : Key)
    → (if key_eq (record { parent = p; current = c }) k
        then add_one (total_count self k)
        else total_count self k)
      ≡ key_count k (event p c n ∷ es) % 2 ^ 64
unfolding key_count one_if
total-step self es p c n h k =
    ground (arith, Counts.totals h k, add_one-mod _ (key_count k es) (Counts.totals h k))

next-step :
    (self : MarkovAstPredictor) (es : List Event) (p c n : ℕ)
    → Counts self es
    → (k : Key) (m : ℕ)
    → (if key_eq (record { parent = p; current = c }) k && n == m
        then add_one (next_count self k m)
        else next_count self k m)
      ≡ event_count k m (event p c n ∷ es) % 2 ^ 64
unfolding event_count one_if
next-step self es p c n h k m =
    ground (arith, Counts.nexts h k m, add_one-mod _ (event_count k m es) (Counts.nexts h k m))

sum-mod :
    (es : List Event) (m : ℕ) → m ≡ length es % 2 ^ 64 → (1 + m) % 2 ^ 64 ≡ suc (length es) % 2 ^ 64
sum-mod es m e = rw e (omega arith)

sum-step :
    (self : MarkovAstPredictor) (es : List Event) (p c n : ℕ)
    → Counts self es
    → total_observations (observe_transition self p c n) ≡ length (event p c n ∷ es) % 2 ^ 64
unfolding total_observations observe_transition
sum-step self es p c n h =
    sum-update (record { parent = p; current = c }) (MarkovAstPredictor.totals self)
    ∙ sum-mod es _ (Counts.sum h)

observe-Counts :
    (self : MarkovAstPredictor) (es : List Event) (p c n : ℕ)
    → Counts self es
    → Counts (observe_transition self p c n) (event p c n ∷ es)
observe-Counts self es p c n h = record {
  totals = λ k. total_count-observe self p c n k ∙ total-step self es p c n h k;
  nexts = λ k m. next_count-observe self p c n k m ∙ next-step self es p c n h k m;
  sum = sum-step self es p c n h;
}

-- The transitions that a tree shows, the latest first: a node's children in order, each with its
-- parent's context and then with the sibling before it, and each child's subtree after the child.
unfoldable pub sibling_events : ℕ → Option ℕ → ℕ → List Event → List Event
sibling_events current none child es = es
sibling_events current (some prev) child es = event current prev child ∷ es

unfoldable mutual
  pub events_of : ℕ → Node → List Event → List Event
  events_of parent (node current children) es = events_of_children parent current none children es

  pub events_of_children : ℕ → ℕ → Option ℕ → Nodes → List Event → List Event
  events_of_children parent current prev no_nodes es = es
  events_of_children parent current prev (a_node child children) es =
      let k = kind_id child in
      events_of_children parent current (some k) children
        (events_of current child (sibling_events current prev k (event parent current k ∷ es)))

unfoldable mutual
  -- The kinds of a subtree's nodes, each before those of its children.
  pub kinds_of : Node → List ℕ
  kinds_of (node k children) = k ∷ kinds_of_children children

  pub kinds_of_children : Nodes → List ℕ
  kinds_of_children no_nodes = []
  kinds_of_children (a_node child children) = kinds_of child ++ kinds_of_children children

sibling-Counts :
    (self : MarkovAstPredictor) (es : List Event) (c : ℕ) (prev : Option ℕ) (k : ℕ)
    → Counts self es
    → Counts (observe_sibling self c prev k) (sibling_events c prev k es)
unfolding observe_sibling sibling_events
sibling-Counts self es c none k h = h
sibling-Counts self es c (some p) k h = observe-Counts self es c p k h

count_descendants-Counts :
    (self : MarkovAstPredictor) (es : List Event) (key : Key) (l : List ℕ)
    → Counts self es
    → Counts (count_descendants self key l) es
unfolding count_descendants total_count next_count total_observations
count_descendants-Counts self es key l h = record {
  totals = Counts.totals h;
  nexts = Counts.nexts h;
  sum = Counts.sum h;
}

mutual
  unfolding traverse_and_observe traverse_children events_of events_of_children

  pub traverse-Counts :
      (self : MarkovAstPredictor) (es : List Event) (p : ℕ) (n : Node)
      → Counts self es
      → Counts (traverse_and_observe self p n).0 (events_of p n es)
  traverse-Counts self es p (node c ch) h =
      count_descendants-Counts (traverse_children self p c none ch).0 _ _ _
        (children-Counts self es p c none ch h)

  children-Counts :
      (self : MarkovAstPredictor) (es : List Event) (p c : ℕ) (prev : Option ℕ) (ch : Nodes)
      → Counts self es
      → Counts (traverse_children self p c prev ch).0 (events_of_children p c prev ch es)
  children-Counts self es p c prev no_nodes h = h
  children-Counts self es p c prev (a_node n ch) h = children-Counts _ _ p c (some (kind_id n)) ch (
      traverse-Counts _ _ c n
        (sibling-Counts _ _ c prev (kind_id n) (observe-Counts self es p c (kind_id n) h)))

mutual
  unfolding traverse_and_observe traverse_children kinds_of kinds_of_children

  pub traverse-kinds_of :
      (self : MarkovAstPredictor) (p : ℕ) (n : Node)
      → (traverse_and_observe self p n).1 ≡ kinds_of n
  traverse-kinds_of self p (node c ch) = ap (◌∷◌ c) (children-kinds_of self p c none ch)

  children-kinds_of :
      (self : MarkovAstPredictor) (p c : ℕ) (prev : Option ℕ) (ch : Nodes)
      → (traverse_children self p c prev ch).1 ≡ kinds_of_children ch
  children-kinds_of self p c prev no_nodes = refl
  children-kinds_of self p c prev (a_node n ch) =
      rw (traverse-kinds_of _ c n) (ap (◌++◌ (kinds_of n)) (children-kinds_of _ p c _ ch))

pub new_predictor-Counts : Counts new_predictor []
unfolding total_count next_count total_observations sum_totals or_zero or_empty get key_count
    event_count
new_predictor-Counts = record { totals = λ k. refl; nexts = λ k n. refl; sum = refl }

observe_tree-Counts :
    (self : MarkovAstPredictor) (es : List Event) (root : Node)
    → Counts self es
    → Counts (observe_tree self root) (events_of 0 root es)
unfolding observe_tree
observe_tree-Counts self es root h = traverse-Counts self es 0 root h

unfoldable pub observe_trees : MarkovAstPredictor → List Node → MarkovAstPredictor
observe_trees self [] = self
observe_trees self (root ∷ roots) = observe_trees (observe_tree self root) roots

unfoldable pub events_of_trees : List Node → List Event → List Event
events_of_trees [] es = es
events_of_trees (root ∷ roots) es = events_of_trees roots (events_of 0 root es)

-- Of a predictor whose counters count a list of transitions, the counters after observing trees count
-- the trees' transitions too, as `u64`s: those of each context with each next kind, those of each
-- context, and all of them.
pub observe_trees-Counts :
    (self : MarkovAstPredictor) (es : List Event) (roots : List Node)
    → Counts self es
    → Counts (observe_trees self roots) (events_of_trees roots es)
unfolding observe_trees events_of_trees
observe_trees-Counts self es [] h = h
observe_trees-Counts self es (root ∷ roots) h =
    observe_trees-Counts (observe_tree self root) (events_of 0 root es) roots
      (observe_tree-Counts self es root h)
