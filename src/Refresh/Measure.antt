-- ===== src/Refresh/Measure.antt =====
-- How much the tasks of src/state/project.rs still have to do when no event comes: two numbers, the
-- second of which counts while the first does not change.
use nexus_intelli_core.Prelude.{
  ℕ, ◌+◌, ◌<◌, Bool, true, false, List, [], ◌∷◌, ◌++◌, ◌≡◌, ◌≢◌, ◌⊎◌, inl, inr, refl, ap, ◌∙◌,
  arith,
}
use nexus_intelli_core.Refresh.{
  Pc, debounce, sleeping, store_pending, claim, swap_pending, release, recheck, reclaim, refreshing,
  late_sleeping, late_store, late_release, late_reclaim, stopped, Shared, World, act,
}

-- The times that a task can still set the pending flag, each counted twice.
abbrev to_store : Pc → ℕ
to_store debounce = 2
to_store sleeping = 2
to_store store_pending = 2
to_store late_sleeping = 2
to_store late_store = 2
to_store _ = 0

-- The accesses left to a task while the pending flag stays as it is, or more.
abbrev to_do : Bool → Pc → ℕ
to_do b debounce = 9
to_do b sleeping = 8
to_do b store_pending = 7
to_do b claim = 6
to_do b late_sleeping = 7
to_do b late_store = 6
to_do b late_release = 1
to_do b refreshing = 6
to_do true release = 5
to_do true recheck = 4
to_do true late_reclaim = 4
to_do true reclaim = 3
to_do true swap_pending = 2
to_do false late_reclaim = 6
to_do false reclaim = 5
to_do false swap_pending = 4
to_do false release = 3
to_do false recheck = 2
to_do b stopped = 0

unfoldable pub total : (Pc → ℕ) → List Pc → ℕ
total f [] = 0
total f (p ∷ ps) = f p + total f ps

total-append : (f : Pc → ℕ) (xs ys : List Pc) → total f (xs ++ ys) ≡ total f xs + total f ys
unfolding total
total-append f [] ys = omega arith
total-append f (p ∷ ps) ys = omega (arith, total-append f ps ys)

total-at :
    (f : Pc → ℕ) (before after : List Pc) (p : Pc)
    → total f (before ++ (p ∷ after)) ≡ total f before + f p + total f after
unfolding total
total-at f before after p = omega (arith, total-append f before (p ∷ after))

total-split :
    (f : Pc → ℕ) (before after new : List Pc) (p : Pc)
    → total f (before ++ (p ∷ (after ++ new))) ≡ total f before + f p + total f after + total f new
unfolding total
total-split f before after new p =
    omega (arith, total-append f before (p ∷ (after ++ new)), total-append f after new)

abbrev as_number : Bool → ℕ
as_number true = 1
as_number false = 0

abbrev pub stores_left : World → ℕ
stores_left w = total to_store w.tasks + as_number w.shared.watch_refresh_pending

abbrev pub work_left : World → ℕ
work_left w = total (to_do w.shared.watch_refresh_pending) w.tasks

-- The number goes down, or the first stays and the second goes down.
abbrev pub Smaller : (e s e' s' : ℕ) → Type 0
Smaller e s e' s' = (e < e') ⊎ ((e ≡ e') × (s < s'))

-- Over what the other tasks contribute.
act-Smaller :
    (early : Bool) (p : Pc) (s : Shared) (a a' : ℕ)
    → p ≢ stopped
    → (a
          + to_store (act early p s).pc
          + a'
          + total to_store (act early p s).spawned
          + as_number (act early p s).shared.watch_refresh_pending
        < a + to_store p + a' + as_number s.watch_refresh_pending)
      ⊎ ((a
              + to_store (act early p s).pc
              + a'
              + total to_store (act early p s).spawned
              + as_number (act early p s).shared.watch_refresh_pending
            ≡ a + to_store p + a' + as_number s.watch_refresh_pending)
          × (((act early p s).shared.watch_refresh_pending ≡ s.watch_refresh_pending)
              × (to_do s.watch_refresh_pending (act early p s).pc
                    + total (to_do s.watch_refresh_pending) (act early p s).spawned
                  < to_do s.watch_refresh_pending p)))
unfolding act total
act-Smaller early stopped s a a' h = absurd (h refl)
act-Smaller early debounce s a a' h = ground arith
act-Smaller early sleeping s a a' h = ground arith
act-Smaller early store_pending s a a' h = ground arith
act-Smaller early claim s a a' h = ground arith
act-Smaller early swap_pending s a a' h = ground arith
act-Smaller early release s a a' h = ground arith
act-Smaller early recheck s a a' h = ground arith
act-Smaller early reclaim s a a' h = ground arith
act-Smaller early refreshing s a a' h = ground arith
act-Smaller early late_sleeping s a a' h = ground arith
act-Smaller early late_store s a a' h = ground arith
act-Smaller early late_release s a a' h = ground arith
act-Smaller early late_reclaim s a a' h = ground arith

pub taken-Smaller :
    (early : Bool) (w : World) (before after : List Pc) (p : Pc)
    → p ≢ stopped
    → w.tasks ≡ before ++ (p ∷ after)
    → Smaller
        (total to_store
            (before ++ ((act early p w.shared).pc ∷ (after ++ (act early p w.shared).spawned)))
          + as_number (act early p w.shared).shared.watch_refresh_pending)
        (total
          (to_do (act early p w.shared).shared.watch_refresh_pending)
          (before ++ ((act early p w.shared).pc ∷ (after ++ (act early p w.shared).spawned))))
        (stores_left w)
        (work_left w)
taken-Smaller early w before after p n e =
    let o = act early p w.shared in
    let b = w.shared.watch_refresh_pending in
    let was : total to_store w.tasks ≡ total to_store before + to_store p + total to_store after =
      ap (total to_store) e ∙ total-at to_store before after p in
    let had : total (to_do b) w.tasks ≡ total (to_do b) before + to_do b p + total (to_do b) after =
      ap (total (to_do b)) e ∙ total-at (to_do b) before after p in
    let now = total-split to_store before after o.spawned o.pc in
    elim (act-Smaller early p w.shared (total to_store before) (total to_store after) n) [
      | inl less ↦ inl (omega (arith, less, was, now))
      | inr (same, (flag, less)) ↦ inr (
        omega (arith, same, was, now),
        rw flag (omega (arith, less, had, total-split (to_do b) before after o.spawned o.pc)),
      )
    ]
