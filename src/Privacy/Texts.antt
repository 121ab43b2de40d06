-- ===== src/Privacy/Texts.antt =====
-- What the text sanitizers of src/sanitizer.rs and src/privacy_gateway.rs report and change.
use nexus_intelli_core.Prelude.{
  false, List, [], ◌∷◌, ◌++◌, map, ◌≡◌, ◌↔◌, inl, inr, refl, ap, arith, All, Bool-cases,
}
use nexus_intelli_core.Prelude.Text.{Text}
use nexus_intelli_core.Privacy.{
  Regex, Engine, redact_loop, builtin, custom_labelled, sanitize_text,
  sanitize_text_with_dynamic_patterns,
}

abbrev pub Misses : Text → List (Text × Regex) → Type 0
Misses t ps = All (λ p. p.1.is_match t ≡ false) ps

redact_loop-Misses :
    (ps : List (Text × Regex)) (t : Text) → Misses t ps → redact_loop ps t ≡ (t, [])
unfolding redact_loop
redact_loop-Misses [] t h = refl
redact_loop-Misses ((l, r) ∷ ps) t (m, h) = rw m (ground (arith, redact_loop-Misses ps t h))

redact_loop-quiet : (ps : List (Text × Regex)) (t : Text) → (redact_loop ps t).1 ≡ [] → Misses t ps
unfolding redact_loop
redact_loop-quiet [] t h = tt
redact_loop-quiet ((l, r) ∷ ps) t h = elim (Bool-cases (r.is_match t)) [
  | inl hit ↦ cc (rw hit at h)
  | inr miss ↦ (miss, redact_loop-quiet ps t (rw miss at h))
]

-- In order, with some of the second list left out.
pub data IsSublist {ℓ} {A : Type ℓ} : List A → List A → Type ℓ where
  done : IsSublist [] []
  keep : {x : A} {xs ys : List A} → IsSublist xs ys → IsSublist (x ∷ xs) (x ∷ ys)
  skip : {x : A} {xs ys : List A} → IsSublist xs ys → IsSublist xs (x ∷ ys)

redact_loop-IsSublist :
    (ps : List (Text × Regex)) (t : Text) → IsSublist (redact_loop ps t).1 (map (λ p. p.0) ps)
unfolding redact_loop
redact_loop-IsSublist [] t = done
redact_loop-IsSublist ((l, r) ∷ ps) t = elim (Bool-cases (r.is_match t)) [
  | inl hit ↦ rw hit (keep (redact_loop-IsSublist ps _))
  | inr miss ↦ rw miss (skip (redact_loop-IsSublist ps _))
]

IsSublist-append {ℓ} :
    {A : Type ℓ} {xs ys us vs : List A}
    → IsSublist xs ys
    → IsSublist us vs
    → IsSublist (xs ++ us) (ys ++ vs)
IsSublist-append done q = q
IsSublist-append (keep p) q = keep (IsSublist-append p q)
IsSublist-append (skip p) q = skip (IsSublist-append p q)

append-eq-nil {ℓ} : {A : Type ℓ} (xs ys : List A) → xs ++ ys ≡ [] → (xs ≡ []) × (ys ≡ [])
append-eq-nil [] ys h = (refl, h)
append-eq-nil (x ∷ xs) ys h = cc

both_quiet :
    (ps qs : List (Text × Regex)) (t : Text)
    → (redact_loop ps t).1 ≡ []
    → (redact_loop qs (redact_loop ps t).0).1 ≡ []
    → Misses t ps × Misses t qs
both_quiet ps qs t b c =
    let missed = redact_loop-quiet ps t b in
    (missed, redact_loop-quiet qs t (rw (redact_loop-Misses ps t missed) at c))

module _ (e : Engine) (t : Text) where
  quiet_of_Misses :
      Misses t (builtin e)
      → Misses t (custom_labelled e)
      → sanitize_text_with_dynamic_patterns e t ≡ (t, [])
  unfolding sanitize_text_with_dynamic_patterns
  quiet_of_Misses h k =
      ground (arith, redact_loop-Misses (builtin e) t h, redact_loop-Misses (custom_labelled e) t k)

  Misses-of_quiet :
      (sanitize_text_with_dynamic_patterns e t).1 ≡ []
      → Misses t (builtin e) × Misses t (custom_labelled e)
  unfolding sanitize_text_with_dynamic_patterns
  Misses-of_quiet h =
      let (b, c) = append-eq-nil _ _ h in both_quiet (builtin e) (custom_labelled e) t b c

-- No redaction is reported exactly when no built-in and no custom pattern matches the text itself;
-- the text then comes back unchanged.
pub sanitize_text-quiet_iff :
    (e : Engine) (t : Text)
    → (((sanitize_text_with_dynamic_patterns e t).1 ≡ [])
        ↔ (Misses t (builtin e) × Misses t (custom_labelled e)))
      × ((sanitize_text_with_dynamic_patterns e t).1 ≡ []
          → (sanitize_text_with_dynamic_patterns e t).0 ≡ t)
sanitize_text-quiet_iff e t =
    let quiet =
      λ (m : Misses t (builtin e) × Misses t (custom_labelled e)). quiet_of_Misses e t m.0 m.1 in
    (
      (Misses-of_quiet e t, λ m. ap (λ r. r.1) (quiet m)),
      λ h. ap (λ r. r.0) (quiet (Misses-of_quiet e t h)),
    )

-- The reported labels are labels of the built-in and the custom patterns, in their order and at
-- most once for each pattern.
pub sanitize_text-IsSublist :
    (e : Engine) (t : Text)
    → IsSublist
        (sanitize_text_with_dynamic_patterns e t).1
        (map (λ p. p.0) (builtin e) ++ map (λ p. p.0) (custom_labelled e))
unfolding sanitize_text_with_dynamic_patterns
sanitize_text-IsSublist e t =
    IsSublist-append (redact_loop-IsSublist (builtin e) t)
      (redact_loop-IsSublist (custom_labelled e) (sanitize_text e t).0)
