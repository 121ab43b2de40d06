-- ===== src/Privacy/Gateway.antt =====
-- What an observer of a sanitized JSON value can read, path by path (src/privacy_gateway.rs).
use mathlib.Core.Option
use nexus_intelli_core.Prelude.{
  ℕ, zero, suc, true, false, List, [], ◌∷◌, ◌++◌, none, some, ◌≡◌, ◌⊎◌, inl, inr, refl, arith, All,
  Bool-cases, Option-cases, if◌then◌else◌,
}
use nexus_intelli_core.Prelude.Text.{Text, text_eq, text_eq→eq}
use nexus_intelli_core.Json.{
  Value, null, string, array, object, Items, nil, cons, Fields, end, field, get_field,
}
use nexus_intelli_core.Json.Paths.{Move, key, index, get_item, go, at}
use nexus_intelli_core.Privacy.{Engine}
use nexus_intelli_core.Privacy.Policy.{
  PrivacyPolicy, redacted, is_sensitive, sanitize_json_args, sanitize_items, sanitize_fields,
}

module _ (e : Engine) (policy : PrivacyPolicy) where
  -- What stands in the result for a value that is reached by this move.
  abbrev mask : Move → Value → Value
  mask (key k) w =
      if is_sensitive e policy k then string redacted else sanitize_json_args e policy w
  mask (index n) w = sanitize_json_args e policy w

  get_field-sanitize :
      (k : Text) (fs : Fields)
      → get_field k (sanitize_fields e policy fs) ≡ Option.map (mask (key k)) (get_field k fs)
  unfolding get_field sanitize_json_args
  get_field-sanitize k end = refl
  get_field-sanitize k (field j v fs) = elim (Bool-cases (text_eq j k)) [
    | inl same ↦ rw (same, text_eq→eq j k same)
    | inr other ↦ rw other (get_field-sanitize k fs)
  ]

  get_item-sanitize :
      (n : ℕ) (vs : Items)
      → get_item n (sanitize_items e policy vs) ≡ Option.map (mask (index n)) (get_item n vs)
  unfolding get_item sanitize_json_args
  get_item-sanitize n nil = refl
  get_item-sanitize zero (cons v vs) = refl
  get_item-sanitize (suc n) (cons v vs) = get_item-sanitize n vs

  go-sanitize :
      (m : Move) (v : Value) → go m (sanitize_json_args e policy v) ≡ Option.map (mask m) (go m v)
  unfolding go sanitize_json_args
  go-sanitize (key k) (object fs) = get_field-sanitize k fs
  go-sanitize (index n) (array vs) = get_item-sanitize n vs
  go-sanitize (key k) null = refl
  go-sanitize _ _ = refl

  -- Nothing can be read below the text that stands for a hidden value.
  at-redacted :
      (pre : List Move) (m : Move) (post : List Move)
      → at (pre ++ (m ∷ post)) (string redacted) ≡ none
  unfolding at go
  at-redacted [] (key k) post = refl
  at-redacted [] (index n) post = refl
  at-redacted (key k ∷ pre) m post = refl
  at-redacted (index n ∷ pre) m post = refl

  at-mask :
      (m : Move) (ms : List Move) (v w : Value)
      → at ms (mask m v) ≡ some w
      → (at ms (sanitize_json_args e policy v) ≡ some w) ⊎ (at ms (string redacted) ≡ some w)
  at-mask (index n) ms v w h = inl h
  at-mask (key k) ms v w h = elim (Bool-cases (is_sensitive e policy k)) [
    | inl yes' ↦ inr (rw yes' at h)
    | inr no' ↦ inl (rw no' at h)
  ]

  at-cons :
      (m : Move) (ms : List Move) (v w : Value)
      → at (m ∷ ms) (sanitize_json_args e policy v) ≡ some w
      → (u : Value) × (go m v ≡ some u) × (at ms (mask m u) ≡ some w)
  unfolding at
  at-cons m ms v w h = elim (Option-cases (go m v)) [
    | inl gone ↦ cc (rw (go-sanitize m v, gone) at h)
    | inr (u, found) ↦ (u, found, rw (go-sanitize m v, found) at h)
  ]

  hidden_under :
      (k : Text) (post : List Move) (w : Value)
      → at post (string redacted) ≡ some w
      → (w ≡ string redacted) × (post ≡ [])
  unfolding at go
  hidden_under k [] w h = (ground arith, refl)
  hidden_under k (key j ∷ post) w h = cc
  hidden_under k (index n ∷ post) w h = cc

  hidden_at :
      (pre : List Move) (k : Text) (post : List Move) (v w : Value)
      → is_sensitive e policy k ≡ true
      → at (pre ++ (key k ∷ post)) (sanitize_json_args e policy v) ≡ some w
      → (w ≡ string redacted) × (post ≡ [])
  hidden_at [] k post v w s h =
      let (u, _, read) = at-cons (key k) post v w h in hidden_under k post w (rw s at read)
  hidden_at (m ∷ pre) k post v w s h =
      let (u, _, read) = at-cons m (pre ++ (key k ∷ post)) v w h in
      elim (at-mask m _ u w read) [
        | inl seen ↦ hidden_at pre k post u w s seen
        | inr masked ↦ cc (at-redacted pre (key k) post)
      ]

  abbrev pub IsPublic : Move → Type 0
  IsPublic (key k) = is_sensitive e policy k ≡ false
  IsPublic (index n) = Unit

  mask-IsPublic : (m : Move) (v : Value) → IsPublic m → mask m v ≡ sanitize_json_args e policy v
  mask-IsPublic (key k) v p = rw p
  mask-IsPublic (index n) v p = refl

  visible_at :
      (ms : List Move) (v : Value)
      → All IsPublic ms
      → at ms (sanitize_json_args e policy v) ≡ Option.map (sanitize_json_args e policy) (at ms v)
  unfolding at
  visible_at [] v h = refl
  visible_at (m ∷ ms) v (p, h) = elim (Option-cases (go m v)) [
    | inl gone ↦ rw (go-sanitize m v, gone)
    | inr (u, found) ↦ rw (go-sanitize m v, found, mask-IsPublic m u p) (visible_at ms u h)
  ]

-- Whatever is read in a sanitized value on a path through a sensitive key is the text "[REDACTED]"
-- at that key itself; below it nothing can be read.
pub sanitize_json-hidden :
    (e : Engine) (policy : PrivacyPolicy) (pre : List Move) (k : Text) (post : List Move)
    (v w : Value)
    → is_sensitive e policy k ≡ true
    → at (pre ++ (key k ∷ post)) (sanitize_json_args e policy v) ≡ some w
    → (w ≡ string redacted) × (post ≡ [])
sanitize_json-hidden e policy = hidden_at e policy

-- On a path with no sensitive key the sanitized value has exactly what the original has, itself
-- sanitized: nothing is lost there, and nothing is added.
pub sanitize_json-visible :
    (e : Engine) (policy : PrivacyPolicy) (ms : List Move) (v : Value)
    → All (IsPublic e policy) ms
    → at ms (sanitize_json_args e policy v) ≡ Option.map (sanitize_json_args e policy) (at ms v)
sanitize_json-visible e policy = visible_at e policy
