-- ===== src/Refresh/Invariant.antt =====
-- What holds of the flags and the tasks between two accesses, in every interleaving.
use nexus_intelli_core.Prelude.{
  ℕ, ◌+◌, ◌≤◌, ◌<◌, Bool, true, false, ◌&&◌, List, ◌∷◌, ◌++◌, ◌≡◌, ◌⊎◌, arith,
}
use nexus_intelli_core.Refresh.{
  Pc, debounce, sleeping, store_pending, claim, swap_pending, release, recheck, reclaim, refreshing,
  late_sleeping, late_store, late_release, late_reclaim, stopped, Shared, World, Step, run_task,
  event, Reach, here, next, act, initial,
}
use nexus_intelli_core.Refresh.Counting.{
  owns, looks, sleeps, stores, lags, one_if, count, count-split, count-at,
}

-- Over the four counts, so that the step below is arithmetic.
pub record Holds (weak : Bool) (s : Shared) (owners lookers sleepers storers laggers : ℕ)
    : Type 0 where
  pub one_owner : owners ≡ one_if s.watch_refresh_running
  pub one_sleeper : sleepers ≡ one_if s.debounce_active
  pub pending_seen : weak ≡ false → s.watch_refresh_pending ≡ true → 0 < owners + lookers
  pub event_kept :
      s.covered < s.events → (0 < sleepers + storers) ⊎ (s.watch_refresh_pending ≡ true)
  pub none_lags : weak ≡ false → laggers ≡ 0
  pub covered_le : s.covered ≤ s.events

abbrev pub Inv : Bool → World → Type 0
Inv weak w =
    Holds weak w.shared (count owns w.tasks) (count looks w.tasks) (count sleeps w.tasks)
      (count stores w.tasks) (count lags w.tasks)

-- One access keeps the facts, whatever the other tasks are: `a` of them before and `a'` behind own
-- the loop, and so for the other three kinds.
act-Holds :
    (weak early : Bool) (p : Pc) (s : Shared) (a a' b b' c c' d d' l l' : ℕ)
    → Holds weak s
        (a + one_if (owns p) + a')
        (b + one_if (looks p) + b')
        (c + one_if (sleeps p) + c')
        (d + one_if (stores p) + d')
        (l + one_if (lags p) + l')
    → Holds weak
        (act (weak && early) p s).shared
        (a
          + one_if (owns (act (weak && early) p s).pc)
          + a'
          + count owns (act (weak && early) p s).spawned)
        (b
          + one_if (looks (act (weak && early) p s).pc)
          + b'
          + count looks (act (weak && early) p s).spawned)
        (c
          + one_if (sleeps (act (weak && early) p s).pc)
          + c'
          + count sleeps (act (weak && early) p s).spawned)
        (d
          + one_if (stores (act (weak && early) p s).pc)
          + d'
          + count stores (act (weak && early) p s).spawned)
        (l
          + one_if (lags (act (weak && early) p s).pc)
          + l'
          + count lags (act (weak && early) p s).spawned)
unfolding act count
act-Holds weak early debounce s a a' b b' c c' d d' l l' h = ground arith
act-Holds weak early sleeping s a a' b b' c c' d d' l l' h = ground arith
act-Holds weak early store_pending s a a' b b' c c' d d' l l' h = ground arith
act-Holds weak early claim s a a' b b' c c' d d' l l' h = ground arith
act-Holds weak early swap_pending s a a' b b' c c' d d' l l' h = ground arith
act-Holds weak early release s a a' b b' c c' d d' l l' h = ground arith
act-Holds weak early recheck s a a' b b' c c' d d' l l' h = ground arith
act-Holds weak early reclaim s a a' b b' c c' d d' l l' h = ground arith
act-Holds weak early refreshing s a a' b b' c c' d d' l l' h = ground arith
act-Holds weak early late_sleeping s a a' b b' c c' d d' l l' h = ground arith
act-Holds weak early late_store s a a' b b' c c' d d' l l' h = ground arith
act-Holds weak early late_release s a a' b b' c c' d d' l l' h = ground arith
act-Holds weak early late_reclaim s a a' b b' c c' d d' l l' h = ground arith
act-Holds weak early stopped s a a' b b' c c' d d' l l' h = ground arith

run_task-Inv :
    (weak early : Bool) (s : Shared) (before after : List Pc) (p : Pc)
    → Inv weak (record { shared = s; tasks = before ++ (p ∷ after) })
    → Inv weak (record {
      shared = (act (weak && early) p s).shared;
      tasks =
          before ++ ((act (weak && early) p s).pc ∷ (after ++ (act (weak && early) p s).spawned));
    })
run_task-Inv weak early s before after p h =
    let o = act (weak && early) p s in
    rw
      (
        count-split owns before after o.spawned o.pc,
        count-split looks before after o.spawned o.pc,
        count-split sleeps before after o.spawned o.pc,
        count-split stores before after o.spawned o.pc,
        count-split lags before after o.spawned o.pc,
      )
      (act-Holds weak early p s _ _ _ _ _ _ _ _ _ _ (
        rw
          (
            count-at owns before after p,
            count-at looks before after p,
            count-at sleeps before after p,
            count-at stores before after p,
            count-at lags before after p,
          )
          at h))

Step-Inv : (weak : Bool) {w u : World} → Step weak w u → Inv weak w → Inv weak u
unfolding count
Step-Inv weak {w} (run_task early before after p e e') h =
    rw e' (run_task-Inv weak early w.shared before after p (rw e at h))
Step-Inv weak (event e) h = rw e (ground arith)

-- The invariant holds after any sequence of steps from the start.
pub Reach-Inv : (weak : Bool) {w : World} → Reach weak initial w → Inv weak w
unfolding count
Reach-Inv weak here = ground arith
Reach-Inv weak (next r st) = Step-Inv weak st (Reach-Inv weak r)
