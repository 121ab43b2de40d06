-- ===== src/Refresh/Safety.antt =====
-- The promises of the refresh coordination, for every reachable interleaving.
use nexus_intelli_core.Prelude.{
  ◌≤◌, Bool, true, false, List, [], ◌∷◌, ◌≡◌, ◌⊎◌, inl, inr, refl, arith, All, Bool-cases,
}
use nexus_intelli_core.Refresh.{Pc, stopped, World, Reach, initial}
use nexus_intelli_core.Refresh.Counting.{owns, looks, sleeps, stores, is_refreshing, count}
use nexus_intelli_core.Refresh.Invariant.{Reach-Inv}

count-refreshing-le : (ps : List Pc) → count is_refreshing ps ≤ count owns ps
unfolding count
count-refreshing-le [] = omega arith
count-refreshing-le (p ∷ ps) = ground (arith, count-refreshing-le ps)

-- However many tasks run, and whether or not a load may come before an earlier store of its task, at
-- most one of them is inside a refresh pass.
pub one_refresh_at_a_time :
    (weak : Bool) (w : World) → Reach weak initial w → count is_refreshing w.tasks ≤ 1
one_refresh_at_a_time weak w r =
    ground (arith, count-refreshing-le w.tasks, (Reach-Inv weak r).one_owner)

-- No task has an access left to make.
abbrev pub IsQuiet : World → Type 0
IsQuiet w = All (λ p. p ≡ stopped) w.tasks

count-IsQuiet :
    (f : Pc → Bool) (ps : List Pc) → f stopped ≡ false → All (λ p. p ≡ stopped) ps → count f ps ≡ 0
unfolding count
count-IsQuiet f [] e h = refl
count-IsQuiet f (p ∷ ps) e (s, h) = rw (s, e) (omega (arith, count-IsQuiet f ps e h))

-- What is left when all tasks have stopped: every event handled so far stood before the start of
-- some refresh pass and nothing is pending; or, only where loads may come early, a request is still
-- noted as pending.
abbrev pub IsCovered : Bool → World → Type 0
IsCovered weak w =
    ((w.shared.covered ≡ w.shared.events) × (w.shared.watch_refresh_pending ≡ false))
    ⊎ ((weak ≡ true) × (w.shared.watch_refresh_pending ≡ true))

-- When all tasks have stopped, both claims are free again, and every event handled so far stood
-- before the start of some refresh pass with nothing pending; or else a load may come before an
-- earlier store of its task, and a request is still noted as pending, which no task will take up
-- without a further event. If all accesses take place in the order of the program, the second never
-- happens.
pub quiet_covers_events :
    (weak : Bool) (w : World)
    → Reach weak initial w
    → IsQuiet w
    → IsCovered weak w
      × (w.shared.watch_refresh_running ≡ false)
      × (w.shared.debounce_active ≡ false)
quiet_covers_events weak w r q =
    let inv = Reach-Inv weak r in
    let o = count-IsQuiet owns w.tasks refl q in
    let l = count-IsQuiet looks w.tasks refl q in
    let s = count-IsQuiet sleeps w.tasks refl q in
    let t = count-IsQuiet stores w.tasks refl q in
    let idle : IsCovered weak w = elim (Bool-cases w.shared.watch_refresh_pending) [
      | inl p ↦ elim (Bool-cases weak) [
        | inl e ↦ inr (e, p)
        | inr e ↦ absurd (ground (arith, inv.pending_seen e p))
      ]
      | inr n ↦ inl (ground arith, n)
    ] in
    (idle, ground arith, ground arith)
