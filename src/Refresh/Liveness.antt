-- ===== src/Refresh/Liveness.antt =====
-- That the tasks of src/state/project.rs come to rest, in whatever order they run.
use mathlib.Core.Path.{subst}
use nexus_intelli_core.Prelude.{
  ℕ, zero, suc, ◌<◌, ◌≤◌, Bool, false, ◌&&◌, List, [], ◌∷◌, ◌++◌, All, ◌≡◌, ◌≢◌, ◌⊎◌, inl, inr,
  refl, sym, ap, arith,
}
use nexus_intelli_core.Refresh.{
  Pc, debounce, sleeping, store_pending, claim, swap_pending, release, recheck, reclaim, refreshing,
  late_sleeping, late_store, late_release, late_reclaim, stopped, act, World, Step, run_task, Reach,
  next, initial,
}
use nexus_intelli_core.Refresh.Safety.{IsQuiet, IsCovered, quiet_covers_events}
use nexus_intelli_core.Refresh.Measure.{stores_left, work_left, Smaller, taken-Smaller}

-- A task that has not stopped makes its next access; no event comes.
pub data Busy (weak : Bool) (w u : World) : Type 0 where
  busy :
      (early : Bool) (before after : List Pc) (p : Pc)
      → p ≢ stopped
      → w.tasks ≡ before ++ (p ∷ after)
      → u ≡ record {
        shared = (act (weak && early) p w.shared).shared;
        tasks =
            before
            ++ ((act (weak && early) p w.shared).pc
                ∷ (after ++ (act (weak && early) p w.shared).spawned));
      }
      → Busy weak w u

Busy-Step : {weak : Bool} {w u : World} → Busy weak w u → Step weak w u
Busy-Step (busy early before after p n e f) = run_task early before after p e f

Busy-Smaller :
    {weak : Bool} {w u : World}
    → Busy weak w u
    → Smaller (stores_left u) (work_left u) (stores_left w) (work_left w)
Busy-Smaller {weak} {w} (busy early before after p n e f) =
    subst (λ x. Smaller (stores_left x) (work_left x) (stores_left w) (work_left w)) (sym f)
      (taken-Smaller (weak && early) w before after p n e)

-- Whatever task runs next, each time that one is left, the world comes to satisfy `P`.
pub data Eventually (weak : Bool) (P : World → Type 0) : World → Type 0 where
  now : {w : World} → P w → Eventually weak P w
  later :
      {w : World} (u : World)
      → Busy weak w u
      → ((v : World) → Busy weak w v → Eventually weak P v)
      → Eventually weak P w

split_busy :
    (ps : List Pc)
    → All (λ p. p ≡ stopped) ps
      ⊎ ((before : List Pc) × ((after : List Pc) × ((p : Pc) × ((p ≢ stopped)
                × (ps ≡ before ++ (p ∷ after))))))
split_busy [] = inl tt
split_busy (stopped ∷ ps) = elim (split_busy ps) [
  | inl h ↦ inl (refl, h)
  | inr (before, (after, (p, (n, e)))) ↦
      inr (stopped ∷ before, (after, (p, (n, ap (◌∷◌ stopped) e))))
]
split_busy (debounce ∷ ps) = inr ([], (ps, (debounce, ((λ e. ground (arith, e)), refl))))
split_busy (sleeping ∷ ps) = inr ([], (ps, (sleeping, ((λ e. ground (arith, e)), refl))))
split_busy (store_pending ∷ ps) = inr ([], (ps, (store_pending, ((λ e. ground (arith, e)), refl))))
split_busy (claim ∷ ps) = inr ([], (ps, (claim, ((λ e. ground (arith, e)), refl))))
split_busy (swap_pending ∷ ps) = inr ([], (ps, (swap_pending, ((λ e. ground (arith, e)), refl))))
split_busy (release ∷ ps) = inr ([], (ps, (release, ((λ e. ground (arith, e)), refl))))
split_busy (recheck ∷ ps) = inr ([], (ps, (recheck, ((λ e. ground (arith, e)), refl))))
split_busy (reclaim ∷ ps) = inr ([], (ps, (reclaim, ((λ e. ground (arith, e)), refl))))
split_busy (refreshing ∷ ps) = inr ([], (ps, (refreshing, ((λ e. ground (arith, e)), refl))))
split_busy (late_sleeping ∷ ps) = inr ([], (ps, (late_sleeping, ((λ e. ground (arith, e)), refl))))
split_busy (late_store ∷ ps) = inr ([], (ps, (late_store, ((λ e. ground (arith, e)), refl))))
split_busy (late_release ∷ ps) = inr ([], (ps, (late_release, ((λ e. ground (arith, e)), refl))))
split_busy (late_reclaim ∷ ps) = inr ([], (ps, (late_reclaim, ((λ e. ground (arith, e)), refl))))

rest_or_run : (weak : Bool) (w : World) → IsQuiet w ⊎ ((u : World) × Busy weak w u)
rest_or_run weak w = elim (split_busy w.tasks) [
  | inl h ↦ inl h
  | inr (before, (after, (p, (n, e)))) ↦ inr (_, busy false before after p n e refl)
]

-- At rest with both claims free, and every event covered by a refresh pass with nothing pending, or
-- else a request noted as pending, where loads may come early.
pub record IsSettled (weak : Bool) (w : World) : Type 0 where
  pub quiet : IsQuiet w
  pub covers : IsCovered weak w
  pub not_running : w.shared.watch_refresh_running ≡ false
  pub not_debouncing : w.shared.debounce_active ≡ false

module _ (weak : Bool) where
  settled : (w : World) → Reach weak initial w → IsQuiet w → IsSettled weak w
  settled w r q =
      let (c, n, d) = quiet_covers_events weak w r q in
      record { quiet = q; covers = c; not_running = n; not_debouncing = d }

  abbrev Settles : World → Type 0
  Settles w = Reach weak initial w → Eventually weak (IsSettled weak) w

  settle_within :
      (e : ℕ)
      → ((w : World) → stores_left w < e → Settles w)
      → (s : ℕ) (w : World) → stores_left w ≤ e
      → work_left w < s
      → Settles w
  settle_within e below zero w he hs r = absurd (omega (arith, hs))
  settle_within e below (suc s) w he hs r = elim (rest_or_run weak w) [
    | inl q ↦ now (settled w r q)
    | inr (u, b) ↦ later u b (λ v c. elim (Busy-Smaller c) [
      | inl less ↦ below v (omega (arith, less, he)) (next r (Busy-Step c))
      | inr (same, less) ↦
          settle_within e below s v (omega (arith, same, he)) (omega (arith, less, hs))
            (next r (Busy-Step c))
    ])
  ]

  settle_below : (e : ℕ) (w : World) → stores_left w < e → Settles w
  settle_below zero w h r = absurd (omega (arith, h))
  settle_below (suc e) w h r =
      settle_within e (settle_below e) (suc (work_left w)) w (omega (arith, h)) (omega arith) r

  -- From every reachable state, when no further event comes, the tasks come to rest in whatever order
  -- they make their accesses, whether or not a load may come before an earlier store of its task.
  -- Then both claims are free, and every event is covered by a refresh pass with nothing pending, or
  -- else, only where loads may come early like that, a request is still noted as pending.
  pub Reach-Settles : (w : World) → Reach weak initial w → Eventually weak (IsSettled weak) w
  Reach-Settles w r = settle_below (suc (stores_left w)) w (omega arith) r
