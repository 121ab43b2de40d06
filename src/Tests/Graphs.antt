-- ===== src/Tests/Graphs.antt =====
-- A chain of three files, and a query with a depth.
use nexus_intelli_core.Prelude.{true, false, List, [], some, any, All, ◌≡◌, refl}
use nexus_intelli_core.Prelude.Text.{Text, codes, text_eq, text_starts_with}
use nexus_intelli_core.Json.{
  Value, Fields, field, end, cons, nil, string, object, array, number, pos_int,
}
use nexus_intelli_core.Linter.{find_text}
use nexus_intelli_core.DepsGraph.Query.{QueryParams, from_args}
use nexus_intelli_core.DepsGraph.Depth.{start_nodes, retain_fields, apply_depth_limit}
use nexus_intelli_core.DepsGraph.Within.{IsNear, apply_depth_limit-IsNear}

abbrev depends_on : Text → Value
depends_on file = object (field (codes "internal") (array (cons (string file) nil)) end)

abbrev chain : Fields
chain = field (codes "a.rs") (depends_on (codes "b.rs")) (
    field (codes "b.rs") (depends_on (codes "c.rs"))
      (field (codes "c.rs") (depends_on (codes "a.rs")) end))

abbrev one_step : QueryParams
one_step = record {
  mode = codes "summary";
  scope_path = some (codes "a");
  depth = some 1;
  direction = codes "outbound";
  include_external = false;
  include_unresolved = false;
  max_nodes = 100;
  max_edges_per_node = 50;
  sort_by = codes "fanout";
  limit_adjustments = [];
}

abbrev query : Value
query = object (
    field (codes "depth") (number (pos_int 1))
      (field (codes "scope_path") (string (codes "a")) end))

from_query : from_args query ≡ one_step
unfolding from_args text_eq
from_query = refl

drops_last :
    apply_depth_limit chain one_step
    ≡ some (
        field
          (codes "a.rs")
          (depends_on (codes "b.rs"))
          (field (codes "b.rs") (depends_on (codes "c.rs")) end))
unfolding apply_depth_limit find_text text_eq text_starts_with
drops_last = refl

apply_depth_limit-IsNear_example :
    (v : List Text) × ((apply_depth_limit chain one_step ≡ some (retain_fields v chain))
      × (All (IsNear chain one_step 1) v
          × All (λ k. any (text_eq k) v ≡ true) (start_nodes chain one_step)))
apply_depth_limit-IsNear_example = apply_depth_limit-IsNear chain one_step 1 refl
