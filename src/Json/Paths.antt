-- ===== src/Json/Paths.antt =====
-- Reading a value at a path of keys and indices: what an observer of a JSON document can see.
use nexus_intelli_core.Prelude.{ℕ, zero, suc, List, [], ◌∷◌, Option, none, some}
use nexus_intelli_core.Prelude.Text.{Text}
use nexus_intelli_core.Json.{Value, array, object, Items, nil, cons, get_field}
use nexus_intelli_core.Json.Access.{◌>>=◌}

pub data Move : Type 0 where
  key : Text → Move
  index : ℕ → Move

unfoldable pub get_item : ℕ → Items → Option Value
get_item n nil = none
get_item zero (cons v vs) = some v
get_item (suc n) (cons v vs) = get_item n vs

unfoldable pub go : Move → Value → Option Value
unfolding get_item get_field
go (key k) (object fs) = get_field k fs
go (index n) (array vs) = get_item n vs
go _ _ = none

unfoldable pub at : List Move → Value → Option Value
at [] v = some v
at (m ∷ ms) v = go m v >>= at ms
