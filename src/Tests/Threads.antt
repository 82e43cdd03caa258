-- ===== src/Tests/Threads.antt =====
-- The threads' structures at concrete values.
use phud.Prelude.{ℕ, ◌+◌, ◌≡◌, refl, [], ◌∷◌, Bytes, codes, true, false, ◌≤◌}
use phud.Prelude.Result.{ok, debug}
use phud.Threads.Queue.{new_queue}
use phud.Threads.Queue.Refinement
use phud.Threads.Queue.Refinement.{returned, pushes, pops, new_queue-fifo}
use phud.Threads.Queue.Waiting
use phud.Threads.Queue.Waiting.{Reach-initial-Inv, lost_wake_up, seen_empty, asleep}
use phud.Threads.Task
use phud.Threads.Task.{joining, join_blind, join_asleep, calling, ending, running}
use phud.Threads.Task.Stopping.{calls_after_stop, join_lost_wake_up, pending}
use phud.Entities.Player.{Player, set_is_hero}
use phud.Threads.PlayerCache.{PlayerCache, new_cache, add_if_missing, set_hero}
use phud.Threads.PlayerCache.Laws.{Inv, adds, heroes, run-new_cache-Inv}

new_queue-fifo_example :
    returned (new_queue ℕ) (pushes 4 ∷ pops ∷ pops ∷ pushes 5 ∷ [])
    ≡ ok (Refinement.fifo [] (pushes 4 ∷ pops ∷ pops ∷ pushes 5 ∷ []))
new_queue-fifo_example = new_queue-fifo (pushes 4 ∷ pops ∷ pops ∷ pushes 5 ∷ [])

abbrev one_inserted : Waiting.State ℕ
one_inserted = record {
  items = 4 ∷ [];
  waiter = Waiting.outside;
  to_notify = 1;
  pushed = 4 ∷ [];
  popped = [];
}

one_insertion : Waiting.Reach (Waiting.initial ℕ) one_inserted
unfolding Waiting.initial
one_insertion = Waiting.next Waiting.here (Waiting.insert (Waiting.initial ℕ) 4)

Reach-initial-Inv_example : Waiting.Inv one_inserted
Reach-initial-Inv_example = Reach-initial-Inv ℕ one_inserted one_insertion

abbrev empty_seen : Waiting.State ℕ
empty_seen = record { items = []; waiter = seen_empty; to_notify = 0; pushed = []; popped = [] }

lost_wake_up_example :
    (t : Waiting.State ℕ) × Waiting.Reach empty_seen t
    × (t.waiter ≡ asleep)
    × (t.items ≡ 7 ∷ [])
    × (t.to_notify ≡ 0)
    × ((u : Waiting.State ℕ) → ¬ Waiting.WaiterStep t u)
lost_wake_up_example = lost_wake_up ℕ empty_seen 7 refl refl

abbrev stopping : Task.State
stopping = record {
  stop = true;
  task_is_stopped = false;
  worker = calling;
  caller = joining;
  calls = 2;
}

abbrev called : Task.State
called = record {
  stop = true;
  task_is_stopped = false;
  worker = running;
  caller = joining;
  calls = 3;
}

calls_after_stop_example : (3 ≤ 2 + pending calling) × (pending calling ≤ 1) × (true ≡ true)
calls_after_stop_example =
    calls_after_stop stopping called refl
      (Task.next Task.here (Task.works (Task.call stopping refl)))

abbrev blind : Task.State
blind = record {
  stop = true;
  task_is_stopped = false;
  worker = ending;
  caller = join_blind;
  calls = 2;
}

join_lost_wake_up_example :
    (t : Task.State) × Task.Reach blind t
    × (t.task_is_stopped ≡ true)
    × (t.caller ≡ join_asleep)
    × ((u : Task.State) → ¬ Task.CallerStep t u)
    × ((u : Task.State) → ¬ Task.WorkerStep t u)
join_lost_wake_up_example = join_lost_wake_up blind refl refl

abbrev player : Bytes → Player
player name = record { name = name; site = codes "w"; comments = []; is_hero = false }

abbrev two_players : PlayerCache
two_players = record {
  players =
      (codes "a", set_is_hero (player (codes "a")) true) ∷ (codes "b", player (codes "b")) ∷ [];
  site_name = codes "w";
}

run-new_cache-Inv_example : Inv two_players
unfolding new_cache add_if_missing set_hero
run-new_cache-Inv_example =
    run-new_cache-Inv debug (codes "w")
      (adds (codes "b") ∷ adds (codes "a") ∷ heroes (codes "a") ∷ adds (codes "a") ∷ []) two_players
      refl
