-- ===== src/Json.antt =====
-- `serde_json::Value`, as src/protocol.rs, src/privacy_gateway.rs and src/tools use it. A `Map` holds
-- its entries in the order of their keys. The text form of a value is not modelled here.
pub mod Access
pub mod Paths
use nexus_intelli_core.Prelude.{
  ℕ, Bool, true, false, not, List, [], ◌∷◌, Option, none, some, ◌≡◌, refl, if◌then◌else◌, ltb, ◌==◌,
}
use nexus_intelli_core.Prelude.Text.{Text, codes, text_eq}

-- An integer, or a float by its bit pattern.
pub data Number : Type 0 where
  pos_int : ℕ → Number
  neg_int : ℕ → Number
  float : ℕ → Number

mutual
  -- the entries of a `Map`
  pub data Fields : Type 0 where
    field : Text → Value → Fields → Fields
    end : Fields

  -- the elements of a `Vec<Value>`
  pub data Items : Type 0 where
    cons : Value → Items → Items
    nil : Items

  pub data Value : Type 0 where
    bool : Bool → Value
    number : Number → Value
    string : Text → Value
    object : Fields → Value
    array : Items → Value
    null : Value

abbrev pub items : Items → List Value
items nil = []
items (cons v vs) = v ∷ items vs

abbrev pub of_items : List Value → Items
of_items [] = nil
of_items (v ∷ vs) = cons v (of_items vs)

unfoldable pub get_field : Text → Fields → Option Value
get_field k end = none
get_field k (field j v fs) = if text_eq j k then some v else get_field k fs

-- `Value::get` with a key: nothing, unless the value is an object with that key.
unfoldable pub get : Text → Value → Option Value
unfolding get_field
get k (object fs) = get_field k fs
get k _ = none

abbrev text_lt : Text → Text → Bool
text_lt [] [] = false
text_lt [] (_ ∷ _) = true
text_lt (_ ∷ _) [] = false
text_lt (x ∷ xs) (y ∷ ys) = let rest = text_lt xs ys in if x == y then rest else ltb x y

-- `Map::insert`.
unfoldable pub insert_field : Text → Value → Fields → Fields
insert_field k v end = field k v end
insert_field k v (field j w fs) =
    let rest = insert_field k v fs in
    if text_eq j k
    then field j v fs
    else if text_lt k j
    then field k v (field j w fs)
    else field j w rest

abbrev pub as_str : Value → Option Text
as_str (string s) = some s
as_str _ = none

abbrev pub as_bool : Value → Option Bool
as_bool (bool b) = some b
as_bool _ = none

abbrev pub as_u64 : Value → Option ℕ
as_u64 (number (pos_int n)) = some n
as_u64 _ = none

abbrev pub as_array : Value → Option (List Value)
as_array (array vs) = some (items vs)
as_array _ = none
