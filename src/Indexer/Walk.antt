-- ===== src/Indexer/Walk.antt =====
-- Which files src/indexer.rs gives away.
use mathlib.Core.List.{Memᴰ}
use mathlib.Core.Path.{subst}
use nexus_intelli_core.Prelude.{
  Bool, true, false, not, ◌||◌, List, [], ◌∷◌, All, ◌≡◌, ◌⊎◌, refl, sym, inl, inr, arith,
  Bool-cases,
}
use nexus_intelli_core.Registry.{FilePath}
use nexus_intelli_core.Indexer.{
  Entry, unreadable, entry, Matcher, is_match, relative, is_skipped, walk_files,
}

-- A file that no glob of `.mcpignore` matches.
abbrev pub IsAllowed : FilePath → Matcher → FilePath → Type 0
IsAllowed root m path =
    (is_match m (relative root path) ≡ false) × (is_skipped (relative root path) ≡ false)

abbrev pub IsBlocked : FilePath → Matcher → FilePath → Type 0
IsBlocked root m path =
    (is_match m (relative root path) ≡ true) × (is_skipped (relative root path) ≡ false)

module _ (root : FilePath) (m : Matcher) where
  -- The three ways of an entry that is read.
  walk-skip :
      (path : FilePath) (is_file : Bool) (es : List Entry)
      → (not is_file || is_skipped (relative root path)) ≡ true
      → walk_files root m (entry path is_file ∷ es) ≡ walk_files root m es
  unfolding walk_files
  walk-skip path is_file es h = rw h refl

  walk-blocked :
      (path : FilePath) (is_file : Bool) (es : List Entry)
      → (not is_file || is_skipped (relative root path)) ≡ false
      → is_match m (relative root path) ≡ true
      → walk_files root m (entry path is_file ∷ es)
        ≡ ((walk_files root m es).0, path ∷ (walk_files root m es).1)
  unfolding walk_files
  walk-blocked path is_file es h k = rw (h, k) refl

  walk-allowed :
      (path : FilePath) (is_file : Bool) (es : List Entry)
      → (not is_file || is_skipped (relative root path)) ≡ false
      → is_match m (relative root path) ≡ false
      → walk_files root m (entry path is_file ∷ es)
        ≡ (path ∷ (walk_files root m es).0, (walk_files root m es).1)
  unfolding walk_files
  walk-allowed path is_file es h k = rw (h, k) refl

  walk-Sorted :
      (es : List Entry)
      → All (IsAllowed root m) (walk_files root m es).0
        × All (IsBlocked root m) (walk_files root m es).1
  unfolding walk_files
  walk-Sorted [] = (tt, tt)
  walk-Sorted (unreadable ∷ es) = walk-Sorted es
  walk-Sorted (entry path is_file ∷ es) =
      let (h, k) = walk-Sorted es in
      elim (Bool-cases (not is_file || is_skipped (relative root path))) [
        | inl s ↦ rw (walk-skip path is_file es s) (h, k)
        | inr s ↦ elim (Bool-cases (is_match m (relative root path))) [
          | inl y ↦ rw (walk-blocked path is_file es s y) (h, ((y, ground (arith, s)), k))
          | inr n ↦ rw (walk-allowed path is_file es s n) (((n, ground (arith, s)), h), k)
        ]
      ]

  -- An entry of a file that is not skipped is in one of two lists.
  abbrev IsKept : List FilePath × List FilePath → Entry → Type 0
  IsKept (allowed, restricted) unreadable = Unit
  IsKept (allowed, restricted) (entry path is_file) =
      is_file ≡ true
      → is_skipped (relative root path) ≡ false
      → Memᴰ path allowed ⊎ Memᴰ path restricted

  IsKept-head : (e : Entry) (es : List Entry) → IsKept (walk_files root m (e ∷ es)) e
  IsKept-head unreadable es = tt
  IsKept-head (entry path is_file) es = λ f s.
      let read : (not is_file || is_skipped (relative root path)) ≡ false = ground (arith, f, s) in
      elim (Bool-cases (is_match m (relative root path))) [
        | inl y ↦ inr (
            subst (λ r. Memᴰ path r.1) (sym (walk-blocked path is_file es read y)) (Memᴰ.head refl))
        | inr n ↦ inl (
            subst (λ r. Memᴰ path r.0) (sym (walk-allowed path is_file es read n)) (Memᴰ.head refl))
      ]

  -- What was kept stays so when an entry is put in front.
  IsKept-more :
      (x e : Entry) (es : List Entry)
      → IsKept (walk_files root m es) x
      → IsKept (walk_files root m (e ∷ es)) x
  unfolding walk_files
  IsKept-more unreadable e es h = tt
  IsKept-more (entry p f) unreadable es h = h
  IsKept-more (entry p f) (entry path is_file) es h = λ a s. more a s (h a s)
    where
      more :
          f ≡ true
          → is_skipped (relative root p) ≡ false
          → Memᴰ p (walk_files root m es).0 ⊎ Memᴰ p (walk_files root m es).1
          → Memᴰ p (walk_files root m (entry path is_file ∷ es)).0
            ⊎ Memᴰ p (walk_files root m (entry path is_file ∷ es)).1
      more a s k = elim (Bool-cases (not is_file || is_skipped (relative root path))) [
        | inl t ↦ rw (walk-skip path is_file es t) k
        | inr t ↦ elim (Bool-cases (is_match m (relative root path))) [
          | inl y ↦
              rw (walk-blocked path is_file es t y)
                (elim k [ inl i ↦ inl i | inr i ↦ inr (Memᴰ.tail i) ])
          | inr n ↦
              rw (walk-allowed path is_file es t n)
                (elim k [ inl i ↦ inl (Memᴰ.tail i) | inr i ↦ inr i ])
        ]
      ]

  walk-keeps : (x : Entry) (es : List Entry) → Memᴰ x es → IsKept (walk_files root m es) x
  walk-keeps x [] i = elim i [ ]
  walk-keeps x (e ∷ es) (Memᴰ.head same) =
      subst (IsKept (walk_files root m (e ∷ es))) (sym same) (IsKept-head e es)
  walk-keeps x (e ∷ es) (Memᴰ.tail i) = IsKept-more x e es (walk-keeps x es i)

  -- No glob matches an allowed file, some glob matches each restricted one, both are outside of the
  -- skipped directories, and every file there that the walk finds is one or the other.
  pub walk_files-Separates :
      (es : List Entry)
      → All (IsAllowed root m) (walk_files root m es).0
        × All (IsBlocked root m) (walk_files root m es).1
        × ((path : FilePath)
            → Memᴰ (entry path true) es
            → is_skipped (relative root path) ≡ false
            → Memᴰ path (walk_files root m es).0 ⊎ Memᴰ path (walk_files root m es).1)
  walk_files-Separates es =
      let (h, k) = walk-Sorted es in (h, k, λ path i s. walk-keeps (entry path true) es i refl s)
