-- ===== src/Registry/Keys.antt =====
-- The laws of the project table: a finite map by unique keys.
use nexus_intelli_core.Prelude.{
  true, [], ◌∷◌, none, some, ◌≡◌, inl, inr, refl, sym, ap, ◌∙◌, arith, Bool-cases, if◌then◌else◌,
}
use nexus_intelli_core.Prelude.Text.{Text, text_eq, text_eq_iff, text_eq→eq, text_eq_refl}
use nexus_intelli_core.Registry.{
  FilePath, path_eq, ProjectContext, Projects, lookup, insert, remove, first_key,
}

pub lookup-insert :
    (k j : Text) (p : ProjectContext) (ps : Projects)
    → lookup j (insert k p ps) ≡ (if text_eq k j then some p else lookup j ps)
unfolding lookup insert
lookup-insert k j p [] = refl
lookup-insert k j p ((i, q) ∷ ps) =
    ground (arith, text_eq_iff k j, text_eq_iff i k, text_eq_iff i j, lookup-insert k j p ps)

abbrev pub IsFresh : Text → Projects → Type 0
IsFresh k ps = lookup k ps ≡ none

-- Each entry stands under its project's own id, and no id stands twice.
abbrev pub HasOwnKeys : Projects → Type 0
HasOwnKeys [] = Unit
HasOwnKeys ((k, p) ∷ ps) = (p.id ≡ k) × IsFresh k ps × HasOwnKeys ps

pub insert-HasOwnKeys :
    (p : ProjectContext) (ps : Projects) → HasOwnKeys ps → HasOwnKeys (insert p.id p ps)
unfolding insert lookup
insert-HasOwnKeys p [] h = (refl, refl, tt)
insert-HasOwnKeys p ((i, q) ∷ ps) (own, fresh, h) = elim (Bool-cases (text_eq i p.id)) [
  | inl same ↦ rw same (sym (text_eq→eq i p.id same), fresh, h)
  | inr other ↦ rw other (
    own,
    ground (arith, lookup-insert p.id i p ps, text_eq_iff p.id i, text_eq_iff i p.id),
    insert-HasOwnKeys p ps h,
  )
]

pub lookup-remove :
    (k j : Text) (ps : Projects)
    → HasOwnKeys ps
    → lookup j (remove k ps) ≡ (if text_eq k j then none else lookup j ps)
unfolding lookup remove
lookup-remove k j [] h = ground arith
lookup-remove k j ((i, q) ∷ ps) (own, fresh, h) =
    ground (arith, text_eq_iff k j, text_eq_iff i k, text_eq_iff i j, lookup-remove k j ps h)

pub remove-HasOwnKeys : (k : Text) (ps : Projects) → HasOwnKeys ps → HasOwnKeys (remove k ps)
unfolding remove
remove-HasOwnKeys k [] h = tt
remove-HasOwnKeys k ((i, q) ∷ ps) (own, fresh, h) =
    ground (arith, lookup-remove k i ps h, remove-HasOwnKeys k ps h)

pub first_key-found :
    (ps : Projects) (k : Text)
    → first_key ps ≡ some k
    → (p : ProjectContext) × (lookup k ps ≡ some p)
unfolding lookup
first_key-found [] k h = cc
first_key-found ((i, q) ∷ ps) k h = (q, ground (arith, text_eq_iff i k))

pub path_eq→eq : (p q : FilePath) → path_eq p q ≡ true → p ≡ q
unfolding path_eq
path_eq→eq [] [] h = refl
path_eq→eq (x ∷ p) (y ∷ q) h = elim (Bool-cases (text_eq x y)) [
  | inl e ↦ rw (text_eq→eq x y e) (ap (◌∷◌ y) (path_eq→eq p q (sym (rw e refl) ∙ h)))
  | inr e ↦ absurd (ground (arith, h, e))
]
path_eq→eq _ _ h = cc

pub path_eq_refl : (p : FilePath) → path_eq p p ≡ true
unfolding path_eq
path_eq_refl [] = refl
path_eq_refl (x ∷ p) = rw (text_eq_refl x) (path_eq_refl p)
