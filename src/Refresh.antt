-- ===== src/Refresh.antt =====
-- src/state/project.rs and the event loop of src/watcher.rs: how file-system events become index
-- refreshes. The atomic flags are one shared record, each access of one is one step, and any number
-- of tasks take their steps in any order. A store with `Release` may become visible after a later
-- load with `Acquire` of another flag by the same task: with `weak` set, the load of the pending flag
-- may come before the store that releases the claim, and a `compare_exchange` that fails, which only
-- loads, before the stores in front of it. One that succeeds comes after them, as do later stores.
pub mod Counting
pub mod Invariant
pub mod Safety
pub mod Measure
pub mod Liveness
use nexus_intelli_core.Prelude.{
  ℕ, suc, ◌+◌, Bool, true, false, ◌&&◌, List, [], ◌∷◌, ◌++◌, ◌≡◌, if◌then◌else◌,
}

-- Where a task stands: the next access that it makes.
pub data Pc : Type 0 where
  -- the event loop of `FileWatcher::start`, at a `ScheduleIndexRefresh`
  debounce : Pc
  -- the task that sleeps for the debounce window, then clears the flag
  sleeping : Pc
  -- `request_watcher_refresh`
  store_pending claim : Pc
  -- `run_watcher_refresh_loop`
  swap_pending release recheck reclaim refreshing : Pc
  -- behind a load that came early: the stores that were in front of it
  late_sleeping late_store late_release late_reclaim : Pc
  stopped : Pc

-- The flags; `events` and `covered` are counters of the model, not of the program: the refresh
-- events handled so far, and how many of these stood when the last refresh pass was started.
pub record Shared : Type 0 where
  pub debounce_active : Bool
  pub watch_refresh_pending : Bool
  pub watch_refresh_running : Bool
  pub events : ℕ
  pub covered : ℕ

pub record Outcome : Type 0 where
  pub shared : Shared
  pub pc : Pc
  pub spawned : List Pc

abbrev go_on : Shared → Pc → Outcome
go_on s p = record { shared = s; pc = p; spawned = [] }

-- One access of one task, or the early load with the stores left for later. The results of the refresh itself are logged only, so that both of them
-- go back to the head of the loop.
unfoldable pub act : Bool → Pc → Shared → Outcome
act early debounce s =
    let noted = record s { events = suc s.events } in
    if s.debounce_active then go_on noted stopped else record {
      shared = record noted { debounce_active = true };
      pc = stopped;
      spawned = sleeping ∷ [];
    }
act early sleeping s =
    if early && s.watch_refresh_running
    then go_on s late_sleeping
    else go_on (record s { debounce_active = false }) store_pending
act early store_pending s =
    if early && s.watch_refresh_running
    then go_on s late_store
    else go_on (record s { watch_refresh_pending = true }) claim
act early claim s = if s.watch_refresh_running then go_on s stopped else record {
  shared = record s { watch_refresh_running = true };
  pc = stopped;
  spawned = swap_pending ∷ [];
}
act early swap_pending s =
    if s.watch_refresh_pending
    then go_on (record s { watch_refresh_pending = false; covered = s.events }) refreshing
    else go_on (record s { watch_refresh_pending = false }) release
act early release s =
    if early
    then go_on s (if s.watch_refresh_pending then late_reclaim else late_release)
    else go_on (record s { watch_refresh_running = false }) recheck
act early recheck s = go_on s (if s.watch_refresh_pending then reclaim else stopped)
act early reclaim s =
    if s.watch_refresh_running
    then go_on s stopped
    else go_on (record s { watch_refresh_running = true }) swap_pending
act early refreshing s = go_on s swap_pending
act early late_sleeping s = go_on (record s { debounce_active = false }) late_store
act early late_store s = go_on (record s { watch_refresh_pending = true }) stopped
act early late_release s = go_on (record s { watch_refresh_running = false }) stopped
act early late_reclaim s = go_on (record s { watch_refresh_running = false }) reclaim
act early stopped s = go_on s stopped

pub record World : Type 0 where
  pub shared : Shared
  pub tasks : List Pc

-- Some task makes its next access, or the watcher receives an event.
pub data Step (weak : Bool) (w u : World) : Type 0 where
  run_task :
      (early : Bool) (before after : List Pc) (p : Pc)
      → w.tasks ≡ before ++ (p ∷ after)
      → u ≡ record {
        shared = (act (weak && early) p w.shared).shared;
        tasks =
            before
            ++ ((act (weak && early) p w.shared).pc
                ∷ (after ++ (act (weak && early) p w.shared).spawned));
      }
      → Step weak w u
  event : u ≡ record w { tasks = debounce ∷ w.tasks } → Step weak w u

pub data Reach (weak : Bool) (w : World) : World → Type 0 where
  here : Reach weak w w
  next : {u v : World} → Reach weak w u → Step weak u v → Reach weak w v

abbrev pub initial : World
initial = record {
  shared = record {
    debounce_active = false;
    watch_refresh_pending = false;
    watch_refresh_running = false;
    events = 0;
    covered = 0;
  };
  tasks = [];
}
