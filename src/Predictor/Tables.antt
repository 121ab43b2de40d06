-- ===== src/Predictor/Tables.antt =====
-- src/analyzer/predictor.rs: the hash maps, as association lists that `entry` updates in place.
use nexus_intelli_core.Prelude.{
  ℕ, Bool, true, false, List, [], ◌∷◌, Option, none, some, ◌≡◌, ◌↔◌, refl, sym, ◌∙◌, arith, inl,
  inr, if◌then◌else◌, Bool-cases,
}

abbrev pub Table : Type 0 → Type 0 → Type 0
Table K V = List (K × V)

unfoldable pub or_zero : Option ℕ → ℕ
or_zero none = 0
or_zero (some n) = n

module _ {K V : Type 0} (eq : K → K → Bool) where
  -- `get`.
  unfoldable pub get : K → Table K V → Option V
  get k [] = none
  get k ((k', v) ∷ t) = let rest = get k t in elim (eq k k') [ true ↦ some v | false ↦ rest ]

  -- `entry(key)`, with what becomes of the value there or of none.
  unfoldable pub update : K → (Option V → V) → Table K V → Table K V
  update k f [] = (k, f none) ∷ []
  update k f ((k', v) ∷ t) =
      let rest = update k f t in
      elim (eq k k') [ true ↦ (k', f (some v)) ∷ t | false ↦ (k', v) ∷ rest ]

no : ¬ (false ≡ true)
no e = ground arith

module _ {K : Type 0} (eq : K → K → Bool) (eq_iff : (a b : K) → (eq a b ≡ true) ↔ (a ≡ b)) where
  eq_refl : (k : K) → eq k k ≡ true
  eq_refl k = (eq_iff k k).1 refl

  apart : (k j k' : K) → eq k j ≡ false → eq k k' ≡ true → eq j k' ≡ false
  apart k j k' n h = elim (Bool-cases (eq j k')) [
    | inl e ↦ absurd (no (sym n ∙ (eq_iff k j).1 ((eq_iff k k').0 h ∙ sym ((eq_iff j k').0 e))))
    | inr e ↦ e
  ]

  get-hit :
      {V : Type 0} (k k' : K) (v : V) (t : Table K V)
      → eq k k' ≡ true
      → get eq k ((k', v) ∷ t) ≡ some v
  unfolding get
  get-hit k k' v t e = ground arith

  get-miss :
      {V : Type 0} (k k' : K) (v : V) (t : Table K V)
      → eq k k' ≡ false
      → get eq k ((k', v) ∷ t) ≡ get eq k t
  unfolding get
  get-miss k k' v t e = ground arith

  update-hit :
      {V : Type 0} (k k' : K) (v : V) (f : Option V → V) (t : Table K V)
      → eq k k' ≡ true
      → update eq k f ((k', v) ∷ t) ≡ (k', f (some v)) ∷ t
  unfolding update
  update-hit k k' v f t e = ground arith

  update-miss :
      {V : Type 0} (k k' : K) (v : V) (f : Option V → V) (t : Table K V)
      → eq k k' ≡ false
      → update eq k f ((k', v) ∷ t) ≡ (k', v) ∷ update eq k f t
  unfolding update
  update-miss k k' v f t e = ground arith

  get-update_same :
      {V : Type 0} (k : K) (f : Option V → V) (t : Table K V)
      → get eq k (update eq k f t) ≡ some (f (get eq k t))
  unfolding get update
  get-update_same k f [] = get-hit k k (f none) [] (eq_refl k)
  get-update_same k f ((k', v) ∷ t) = elim (Bool-cases (eq k k')) [
    | inl h ↦ rw (update-hit k k' v f t h, get-hit k k' (f (some v)) t h, get-hit k k' v t h) refl
    | inr h ↦
        rw (update-miss k k' v f t h, get-miss k k' v (update eq k f t) h, get-miss k k' v t h)
          (get-update_same k f t)
  ]

  get-update_other :
      {V : Type 0} (k j : K) (f : Option V → V) (t : Table K V)
      → eq k j ≡ false
      → get eq j (update eq k f t) ≡ get eq j t
  unfolding get update
  get-update_other k j f [] n = get-miss j k (f none) [] (elim (Bool-cases (eq j k)) [
    | inl e ↦ absurd (no (sym n ∙ (eq_iff k j).1 (sym ((eq_iff j k).0 e))))
    | inr e ↦ e
  ])
  get-update_other k j f ((k', v) ∷ t) n = elim (Bool-cases (eq k k')) [
    | inl h ↦
        let m = apart k j k' n h in
        rw (update-hit k k' v f t h, get-miss j k' (f (some v)) t m, get-miss j k' v t m) refl
    | inr h ↦ rw (update-miss k k' v f t h) (elim (Bool-cases (eq j k')) [
      | inl e ↦ rw (get-hit j k' v (update eq k f t) e, get-hit j k' v t e) refl
      | inr e ↦
          rw (get-miss j k' v (update eq k f t) e, get-miss j k' v t e) (get-update_other k j f t n)
    ])
  ]

  pub get-update :
      {V : Type 0} (k j : K) (f : Option V → V) (t : Table K V)
      → get eq j (update eq k f t) ≡ (if eq k j then some (f (get eq j t)) else get eq j t)
  get-update k j f t = elim (Bool-cases (eq k j)) [
    | inl h ↦ rw h (rw ((eq_iff k j).0 h) (get-update_same j f t))
    | inr h ↦ rw h (get-update_other k j f t h)
  ]
