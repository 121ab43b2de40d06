-- ===== src/Tests/Refreshes.antt =====
-- One event, followed through its refresh pass to rest.
use nexus_intelli_core.Prelude.{◌≤◌, List, [], ◌∷◌, ◌++◌, Bool, ◌≡◌, refl, true, false}
use nexus_intelli_core.Refresh.{
  Pc, debounce, sleeping, store_pending, claim, swap_pending, release, recheck, refreshing,
  late_release, stopped, act, World, Step, run_task, event, Reach, here, next, initial,
}
use nexus_intelli_core.Refresh.Counting.{count, is_refreshing}
use nexus_intelli_core.Refresh.Liveness.{Eventually, IsSettled, Reach-Settles}
use nexus_intelli_core.Refresh.Safety.{
  IsQuiet, IsCovered, one_refresh_at_a_time, quiet_covers_events,
}

abbrev early_at : Bool → List Pc → Pc → List Pc → World → World
early_at early before p after w = record {
  shared = (act early p w.shared).shared;
  tasks = before ++ ((act early p w.shared).pc ∷ (after ++ (act early p w.shared).spawned));
}

abbrev go_at : List Pc → Pc → List Pc → World → World
go_at before p after w = early_at false before p after w

abbrev received : World
received = record initial { tasks = debounce ∷ [] }

abbrev waiting : World
waiting = go_at [] debounce [] received

abbrev claimed : World
claimed =
    go_at (stopped ∷ []) claim []
      (go_at (stopped ∷ []) store_pending [] (go_at (stopped ∷ []) sleeping [] waiting))

abbrev passing : World
passing = go_at (stopped ∷ stopped ∷ []) swap_pending [] claimed

abbrev at_rest : World
at_rest = go_at (stopped ∷ stopped ∷ []) recheck [] (
    go_at (stopped ∷ stopped ∷ []) release [] (
      go_at (stopped ∷ stopped ∷ []) swap_pending []
        (go_at (stopped ∷ stopped ∷ []) refreshing [] passing)))

go_at-Step :
    (before : List Pc) (p : Pc) (after : List Pc) {w : World}
    → w.tasks ≡ before ++ (p ∷ after)
    → Step true w (go_at before p after w)
unfolding act
go_at-Step before p after e = run_task false before after p e refl

early_at-Step :
    (before : List Pc) (p : Pc) (after : List Pc) {w : World}
    → w.tasks ≡ before ++ (p ∷ after)
    → Step true w (early_at true before p after w)
unfolding act
early_at-Step before p after e = run_task true before after p e refl

passing-Reach : Reach true initial passing
unfolding act
passing-Reach =
    next
      (next
        (next
          (next (next (next here (event refl)) (go_at-Step [] debounce [] refl))
            (go_at-Step (stopped ∷ []) sleeping [] refl))
          (go_at-Step (stopped ∷ []) store_pending [] refl))
        (go_at-Step (stopped ∷ []) claim [] refl))
      (go_at-Step (stopped ∷ stopped ∷ []) swap_pending [] refl)

at_rest-Reach : Reach true initial at_rest
unfolding act
at_rest-Reach =
    next
      (next
        (next (next passing-Reach (go_at-Step (stopped ∷ stopped ∷ []) refreshing [] refl))
          (go_at-Step (stopped ∷ stopped ∷ []) swap_pending [] refl))
        (go_at-Step (stopped ∷ stopped ∷ []) release [] refl))
      (go_at-Step (stopped ∷ stopped ∷ []) recheck [] refl)

one_refresh_at_a_time_example : count is_refreshing passing.tasks ≤ 1
one_refresh_at_a_time_example = one_refresh_at_a_time true passing passing-Reach

quiet_covers_events_example :
    IsCovered true at_rest
    × (at_rest.shared.watch_refresh_running ≡ false)
    × (at_rest.shared.debounce_active ≡ false)
unfolding act
quiet_covers_events_example =
    quiet_covers_events true at_rest at_rest-Reach (refl, (refl, (refl, tt)))

Reach-Settles_example : Eventually true (IsSettled true) passing
Reach-Settles_example = Reach-Settles true passing passing-Reach

-- The claim is about to be released when a second event comes.
abbrev releasing : World
releasing =
    go_at (stopped ∷ stopped ∷ []) swap_pending []
      (go_at (stopped ∷ stopped ∷ []) refreshing [] passing)

abbrev second_event : World
second_event = record releasing { tasks = debounce ∷ releasing.tasks }

abbrev three : List Pc
three = stopped ∷ stopped ∷ stopped ∷ []

abbrev overtaken : World
overtaken = early_at true three release (store_pending ∷ []) (
    go_at (three ++ (release ∷ [])) sleeping []
      (go_at [] debounce (stopped ∷ stopped ∷ release ∷ []) second_event))

abbrev left_pending : World
left_pending = go_at three late_release (stopped ∷ []) (
    go_at (three ++ (late_release ∷ [])) claim []
      (go_at (three ++ (late_release ∷ [])) store_pending [] overtaken))

second_event-Reach : Reach true initial second_event
unfolding act
second_event-Reach =
    next
      (next (next passing-Reach (go_at-Step (stopped ∷ stopped ∷ []) refreshing [] refl))
        (go_at-Step (stopped ∷ stopped ∷ []) swap_pending [] refl))
      (event refl)

overtaken-Reach : Reach true initial overtaken
unfolding act
overtaken-Reach =
    next
      (next
        (next second_event-Reach (go_at-Step [] debounce (stopped ∷ stopped ∷ release ∷ []) refl))
        (go_at-Step (three ++ (release ∷ [])) sleeping [] refl))
      (early_at-Step three release (store_pending ∷ []) refl)

left_pending-Reach : Reach true initial left_pending
unfolding act
left_pending-Reach =
    next
      (next (next overtaken-Reach (go_at-Step (three ++ (late_release ∷ [])) store_pending [] refl))
        (go_at-Step (three ++ (late_release ∷ [])) claim [] refl))
      (go_at-Step three late_release (stopped ∷ []) refl)

-- All tasks have stopped, one of the two events is not covered, and the request stays pending.
second_is_left :
    IsQuiet left_pending
    × (left_pending.shared.events ≡ 2)
    × (left_pending.shared.covered ≡ 1)
    × (left_pending.shared.watch_refresh_pending ≡ true)
unfolding act
second_is_left = ((refl, (refl, (refl, (refl, (refl, tt))))), refl, refl, refl)
