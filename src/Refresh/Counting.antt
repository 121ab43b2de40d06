-- ===== src/Refresh/Counting.antt =====
-- How many tasks stand at a place: the measure behind the invariant of src/state/project.rs.
use nexus_intelli_core.Prelude.{
  ℕ, ◌+◌, Bool, true, false, List, [], ◌∷◌, ◌++◌, ◌≡◌, arith, if◌then◌else◌,
}
use nexus_intelli_core.Refresh.{
  Pc, sleeping, store_pending, claim, swap_pending, release, recheck, reclaim, refreshing,
  late_sleeping, late_store, late_release, late_reclaim,
}

-- The tasks inside the refresh loop, between its claim of the running flag and its release.
abbrev pub owns : Pc → Bool
owns swap_pending = true
owns refreshing = true
owns release = true
owns late_release = true
owns late_reclaim = true
owns _ = false

-- The tasks that will still look at the running flag and claim it.
abbrev pub looks : Pc → Bool
looks claim = true
looks recheck = true
looks reclaim = true
looks late_reclaim = true
looks _ = false

abbrev pub sleeps : Pc → Bool
sleeps sleeping = true
sleeps late_sleeping = true
sleeps _ = false

abbrev pub stores : Pc → Bool
stores store_pending = true
stores late_store = true
stores _ = false

abbrev pub is_refreshing : Pc → Bool
is_refreshing refreshing = true
is_refreshing _ = false

-- The tasks with an access that came early behind them.
abbrev pub lags : Pc → Bool
lags late_sleeping = true
lags late_store = true
lags late_release = true
lags late_reclaim = true
lags _ = false

abbrev pub one_if : Bool → ℕ
one_if b = if b then 1 else 0

unfoldable pub count : (Pc → Bool) → List Pc → ℕ
count f [] = 0
count f (p ∷ ps) = one_if (f p) + count f ps

pub count-append : (f : Pc → Bool) (xs ys : List Pc) → count f (xs ++ ys) ≡ count f xs + count f ys
unfolding count
count-append f [] ys = omega arith
count-append f (p ∷ ps) ys = omega (arith, count-append f ps ys)

-- The count over a list with a distinguished task, and over what a step of it leaves.
pub count-split :
    (f : Pc → Bool) (before after new : List Pc) (p : Pc)
    → count f (before ++ (p ∷ (after ++ new)))
      ≡ count f before + one_if (f p) + count f after + count f new
unfolding count
count-split f before after new p =
    omega (arith, count-append f before (p ∷ (after ++ new)), count-append f after new)

pub count-at :
    (f : Pc → Bool) (before after : List Pc) (p : Pc)
    → count f (before ++ (p ∷ after)) ≡ count f before + one_if (f p) + count f after
unfolding count
count-at f before after p = omega (arith, count-append f before (p ∷ after))
