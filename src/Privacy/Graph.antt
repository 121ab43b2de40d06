-- ===== src/Privacy/Graph.antt =====
-- src/privacy_gateway.rs: `sanitize_dependency_graph`.
use nexus_intelli_core.Prelude.{List, [], ◌++◌, if◌then◌else◌}
use nexus_intelli_core.Prelude.Text.{Text, codes, text_eq}
use nexus_intelli_core.Json.{Value, string, array, object, Items, nil, cons, Fields, end, field}
use nexus_intelli_core.Privacy.{Engine}
use nexus_intelli_core.Privacy.Policy.{PrivacyPolicy, sanitize_output_text}

-- A value, and the labels of what was redacted in it.
abbrev pub Cleaned : Type 0
Cleaned = Value × List Text

-- `get_mut` of a key, and what becomes of the value there.
unfoldable pub at_field : Text → (Value → Cleaned) → Fields → Fields × List Text
unfolding text_eq
at_field k f end = (end, [])
at_field k f (field j v fs) =
    let (clean, fired) = f v in
    let (rest, more) = at_field k f fs in
    if text_eq j k then (field j clean fs, fired) else (field j v rest, more)

unfoldable pub at_key : Text → (Value → Cleaned) → Value → Cleaned
unfolding at_field
at_key k f (object fs) = let (cleaned, fired) = at_field k f fs in (object cleaned, fired)
at_key k f v = (v, [])

unfoldable pub each_item : (Value → Cleaned) → Items → Items × List Text
each_item f nil = (nil, [])
each_item f (cons v vs) =
    let (clean, fired) = f v in
    let (rest, more) = each_item f vs in (cons clean rest, fired ++ more)

unfoldable pub in_array : (Value → Cleaned) → Value → Cleaned
unfolding each_item
in_array f (array vs) = let (cleaned, fired) = each_item f vs in (array cleaned, fired)
in_array f v = (v, [])

-- One change after the other.
abbrev pub both : (Value → Cleaned) → (Value → Cleaned) → Value → Cleaned
both f g v = let (first, fired) = f v in let (second, more) = g first in (second, fired ++ more)

module _ (e : Engine) (policy : PrivacyPolicy) where
  unfoldable pub clean_text : Value → Cleaned
  unfolding sanitize_output_text
  clean_text (string s) =
      let (clean, fired) = sanitize_output_text e policy s in (string clean, fired)
  clean_text v = (v, [])

  unfoldable pub clean_node : Value → Cleaned
  unfolding at_key clean_text
  clean_node v = both (at_key (codes "id") clean_text) (at_key (codes "label") clean_text) v

  unfoldable pub clean_edge : Value → Cleaned
  unfolding at_key clean_text
  clean_edge v =
      both (both (at_key (codes "source") clean_text) (at_key (codes "target") clean_text))
        (at_key (codes "label") clean_text) v

  unfoldable pub sanitize_dependency_graph : Value → Cleaned
  unfolding at_key in_array clean_node clean_edge
  sanitize_dependency_graph graph_json =
      if policy.redact_secrets
      then both (at_key (codes "nodes") (in_array clean_node))
          (at_key (codes "edges") (in_array clean_edge)) graph_json
      else (graph_json, [])
