-- ===== src/DepsGraph/Query.antt =====
-- src/tools/deps_graph/mod.rs: the parameters of a query. A `usize` has 64 bits.
use nexus_intelli_core.Prelude.{
  ℕ, Bool, false, List, [], ◌∷◌, ◌++◌, Option, none, some, ltb, if◌then◌else◌,
}
use nexus_intelli_core.Prelude.Text.{Text, codes}
use nexus_intelli_core.Prelude.Decimal.{to_dec}
use nexus_intelli_core.Json.{Value, get, as_str, as_bool, as_u64}
use nexus_intelli_core.Json.Access.{◌>>=◌, unwrap_or}

pub record QueryParams : Type 0 where
  pub mode : Text
  pub scope_path : Option Text
  pub depth : Option ℕ
  pub direction : Text
  pub include_external : Bool
  pub include_unresolved : Bool
  pub max_nodes : ℕ
  pub max_edges_per_node : ℕ
  pub sort_by : Text
  pub limit_adjustments : List Text

-- The limit, and the adjustments with what is added to them.
unfoldable pub bounded_limit :
    Value → (field : Text) (default maximum : ℕ) → List Text → ℕ × List Text
unfolding get to_dec
bounded_limit args field default maximum adjustments = elim (get field args) [
  | none ↦ (default, adjustments)
  | some value ↦ elim (as_u64 value) [
    | none ↦ (
      default,
      adjustments ++ ((field ++ codes ": invalid value; using default " ++ to_dec default) ∷ []),
    )
    | some requested ↦
        if ltb maximum requested
        then (
          maximum,
          adjustments
              ++ ((field
                    ++ codes ": clamped from "
                    ++ to_dec requested
                    ++ codes " to "
                    ++ to_dec maximum)
                  ∷ []),
        )
        else (requested, adjustments)
  ]
]

unfoldable pub at_most_five : ℕ → ℕ
at_most_five n = if ltb 5 n then 5 else n

unfoldable pub text_arg : Value → (field default : Text) → Text
unfolding get
text_arg args field default = unwrap_or (get field args >>= as_str) default

unfoldable pub flag_arg : Value → (field : Text) → Bool
unfolding get
flag_arg args field = unwrap_or (get field args >>= as_bool) false

-- `QueryParams::from_args`.
unfoldable pub from_args : Value → QueryParams
unfolding bounded_limit get text_arg flag_arg at_most_five
from_args args =
    let (nodes, adjusted) = bounded_limit args (codes "max_nodes") 100 200 [] in
    let (edges, adjustments) = bounded_limit args (codes "max_edges_per_node") 50 100 adjusted in
    record {
      mode = text_arg args (codes "mode") (codes "summary");
      scope_path = get (codes "scope_path") args >>= as_str;
      depth = (get (codes "depth") args >>= as_u64) >>= (λ n. some (at_most_five n));
      direction = text_arg args (codes "direction") (codes "outbound");
      include_external = flag_arg args (codes "include_external");
      include_unresolved = flag_arg args (codes "include_unresolved");
      max_nodes = nodes;
      max_edges_per_node = edges;
      sort_by = text_arg args (codes "sort_by") (codes "fanout");
      limit_adjustments = adjustments;
    }
