-- ===== src/Prelude/Membership.antt =====
-- Membership in the lists that `any` searches and `retain` filters.
use mathlib.Core.Path.{◌≡◌, refl, ap, sym, ◌∙◌, subst}
use mathlib.Core.Logic.{◌↔◌, inl, inr}
use mathlib.Core.Bool.{Bool, true, false}
use mathlib.Core.List.{List, [], ◌∷◌, Memᴰ}
use mathlib.Core.List.Memᴰ
use native.Mathlib.Omega.{arith}
use nexus_intelli_core.Prelude.Tests.{Bool-cases}
use nexus_intelli_core.Prelude.Lists.{any, retain}

module _ {ℓ} {A : Type ℓ} (p : A → Bool) where
  any-of_mem : (xs : List A) {x : A} → Memᴰ x xs → p x ≡ true → any p xs ≡ true
  any-of_mem [] m h = elim m [ ]
  any-of_mem (x ∷ xs) (Memᴰ.head e) h = rw (sym (ap p e) ∙ h) refl
  any-of_mem (x ∷ xs) (Memᴰ.tail m) h = ground (arith, any-of_mem xs m h)

  mem_of-any : (xs : List A) → any p xs ≡ true → (x : A) × (Memᴰ x xs × (p x ≡ true))
  mem_of-any [] e = absurd (ground arith)
  mem_of-any (x ∷ xs) e = elim (Bool-cases (p x)) [
    | inl h ↦ (x, (Memᴰ.head refl, h))
    | inr h ↦ let (y, (m, k)) = mem_of-any xs (sym (rw h refl) ∙ e) in (y, (Memᴰ.tail m, k))
  ]

  pub any_iff : (xs : List A) → (any p xs ≡ true) ↔ ((x : A) × (Memᴰ x xs × (p x ≡ true)))
  any_iff xs = (mem_of-any xs, λ s. any-of_mem xs s.1.0 s.1.1)

  retain-yes : (x : A) (xs : List A) → p x ≡ true → retain p (x ∷ xs) ≡ x ∷ retain p xs
  retain-yes x xs h = ground arith

  retain-no : (x : A) (xs : List A) → p x ≡ false → retain p (x ∷ xs) ≡ retain p xs
  retain-no x xs h = ground arith

  mem_retain : (xs : List A) {x : A} → Memᴰ x xs → p x ≡ true → Memᴰ x (retain p xs)
  mem_retain [] m h = elim m [ ]
  mem_retain (y ∷ xs) (Memᴰ.head e) h = rw (retain-yes y xs (sym (ap p e) ∙ h)) (Memᴰ.head e)
  mem_retain (y ∷ xs) (Memᴰ.tail m) h = elim (Bool-cases (p y)) [
    | inl k ↦ rw (retain-yes y xs k) (Memᴰ.tail (mem_retain xs m h))
    | inr k ↦ rw (retain-no y xs k) (mem_retain xs m h)
  ]

  mem_of-retain : (xs : List A) (x : A) → Memᴰ x (retain p xs) → Memᴰ x xs × (p x ≡ true)
  mem_of-retain [] x m = elim m [ ]
  mem_of-retain (y ∷ xs) x m = elim (Bool-cases (p y)) [
    | inl k ↦ elim (Memᴰ.cases_cons (subst (Memᴰ x) (retain-yes y xs k) m)) [
      | inl e ↦ (Memᴰ.head e, ap p e ∙ k)
      | inr m' ↦ let (r, h) = mem_of-retain xs x m' in (Memᴰ.tail r, h)
    ]
    | inr k ↦
        let (r, h) = mem_of-retain xs x (subst (Memᴰ x) (retain-no y xs k) m) in (Memᴰ.tail r, h)
  ]

  pub mem-retain_iff : (xs : List A) (x : A) → Memᴰ x (retain p xs) ↔ (Memᴰ x xs × (p x ≡ true))
  mem-retain_iff xs x = (mem_of-retain xs x, λ s. mem_retain xs s.0 s.1)
