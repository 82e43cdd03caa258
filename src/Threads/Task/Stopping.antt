-- ===== src/Threads/Task/Stopping.antt =====
-- stop and join of a periodic task (threads/PeriodicTask.cpp).
use phud.Prelude.{ℕ, ◌+◌, ◌≤◌, ◌≡◌, refl, ap, true, arith}
use phud.Threads.Task.{
  Worker, absent, top, holding, sleeping, deciding, calling, running, ending, notifying, returned,
  join_blind, join_asleep, State, is_over, woken, WorkerStep, lock, leave, sleep, time_out, wake,
  pass, call, quit, repeat_task, stop_task, set_stopped, notify, CallerStep, start, stop_at_once,
  set_stop, join, join_at_once, join_lock, join_sees, join_misses, join_sleep, Step, works,
  calls_in, spurious, Reach, here, next,
}

-- The calls of the task that the worker cannot take back: one if it has passed its test of m_stop.
abbrev pub pending : Worker → ℕ
pending calling = 1
pending absent = 0
pending top = 0
pending holding = 0
pending sleeping = 0
pending deciding = 0
pending running = 0
pending ending = 0
pending notifying = 0
pending returned = 0

-- m_stop is set, and the calls so far and the pending one are at most `n`.
abbrev Stopped : ℕ → State → Type 0
Stopped n s = (s.stop ≡ true) × (s.calls + pending s.worker ≤ n)

over-pending : (w : Worker) → is_over w ≡ true → pending w ≡ 0
over-pending absent h = refl
over-pending returned h = refl
over-pending calling h = cc
over-pending top h = refl
over-pending holding h = refl
over-pending sleeping h = refl
over-pending deciding h = refl
over-pending running h = refl
over-pending ending h = refl
over-pending notifying h = refl

WorkerStep-Stopped : (n : ℕ) {s t : State} → WorkerStep s t → Stopped n s → Stopped n t
WorkerStep-Stopped n (lock s e f) v = (v.0, omega arith)
WorkerStep-Stopped n (leave s e f) v = (v.0, omega arith)
WorkerStep-Stopped n (sleep s e f) v = (v.0, omega arith)
WorkerStep-Stopped n (time_out s e f) v = (v.0, omega arith)
WorkerStep-Stopped n (wake s e f) v = (v.0, omega arith)
WorkerStep-Stopped n (pass s e f) v = cc
WorkerStep-Stopped n (call s e) v = (v.0, omega (arith, ap pending e))
WorkerStep-Stopped n (quit s e f) v = (v.0, omega arith)
WorkerStep-Stopped n (repeat_task s e) v = (v.0, omega arith)
WorkerStep-Stopped n (stop_task s e) v = (v.0, omega arith)
WorkerStep-Stopped n (set_stopped s e) v = (v.0, omega arith)
WorkerStep-Stopped n (notify s e) v = (v.0, omega arith)

CallerStep-Stopped : (n : ℕ) {s t : State} → CallerStep s t → Stopped n s → Stopped n t
CallerStep-Stopped n (start s e f) v = (v.0, omega arith)
CallerStep-Stopped n (stop_at_once s e f) v = v
CallerStep-Stopped n (set_stop s e f g) v = (refl, v.1)
CallerStep-Stopped n (join s e) v = v
CallerStep-Stopped n (join_at_once s e f) v = v
CallerStep-Stopped n (join_lock s e f g) v = v
CallerStep-Stopped n (join_sees s e f) v = v
CallerStep-Stopped n (join_misses s e f) v = v
CallerStep-Stopped n (join_sleep s e) v = v

Step-Stopped : (n : ℕ) {s t : State} → Step s t → Stopped n s → Stopped n t
Step-Stopped n (works w) v = WorkerStep-Stopped n w v
Step-Stopped n (calls_in c) v = CallerStep-Stopped n c v
Step-Stopped n (spurious s e f) v = v

Reach-Stopped : (n : ℕ) {s t : State} → Stopped n s → Reach s t → Stopped n t
Reach-Stopped n v here = v
Reach-Stopped n v (next r st) = Step-Stopped n st (Reach-Stopped n v r)

-- Once stop() has set its flag the task is called at most once more, and not at all unless the
-- worker has already passed its test of the flag, whatever the threads do afterwards, another
-- start() included; and the flag stays set.
pub calls_after_stop :
    (s t : State)
    → s.stop ≡ true
    → Reach s t
    → (t.calls ≤ s.calls + pending s.worker) × (pending s.worker ≤ 1) × (t.stop ≡ true)
calls_after_stop s t h r =
    let (a, b) = Reach-Stopped (s.calls + pending s.worker) (h, omega arith) r in
    (omega arith, pending-le s.worker, a)
  where
    pending-le : (w : Worker) → pending w ≤ 1
    pending-le calling = omega arith
    pending-le _ = omega arith

asleep_stays : {s t : State} → s.caller ≡ join_asleep → ¬ CallerStep s t
asleep_stays h (start s e f) = cc
asleep_stays h (stop_at_once s e f) = cc
asleep_stays h (set_stop s e f g) = cc
asleep_stays h (join s e) = cc
asleep_stays h (join_at_once s e f) = cc
asleep_stays h (join_lock s e f g) = cc
asleep_stays h (join_sees s e f) = cc
asleep_stays h (join_misses s e f) = cc
asleep_stays h (join_sleep s e) = cc

over_stays : {s t : State} → s.worker ≡ returned → ¬ WorkerStep s t
over_stays h (lock s e f) = cc
over_stays h (leave s e f) = cc
over_stays h (sleep s e f) = cc
over_stays h (time_out s e f) = cc
over_stays h (wake s e f) = cc
over_stays h (pass s e f) = cc
over_stays h (call s e) = cc
over_stays h (quit s e f) = cc
over_stays h (repeat_task s e) = cc
over_stays h (stop_task s e) = cc
over_stays h (set_stopped s e) = cc
over_stays h (notify s e) = cc

-- Whenever the caller of join() has found the task running and is not yet asleep while the worker
-- is past its loop, the worker can finish and notify before the caller sleeps; then the task is
-- stopped, the caller sleeps, and neither thread can make a step but by a spurious wake-up.
pub join_lost_wake_up :
    (s : State)
    → s.caller ≡ join_blind
    → s.worker ≡ ending
    → (t : State) × Reach s t
      × (t.task_is_stopped ≡ true)
      × (t.caller ≡ join_asleep)
      × ((u : State) → ¬ CallerStep t u)
      × ((u : State) → ¬ WorkerStep t u)
join_lost_wake_up s h w = (
  asleep,
  next (next (next here (works (set_stopped s w))) (works (notify marked refl)))
      (calls_in (join_sleep over (rw h refl))),
  refl,
  refl,
  λ u. asleep_stays {s = asleep} refl,
  λ u. over_stays {s = asleep} refl,
)
  where
    marked : State
    marked = record s { worker = notifying; task_is_stopped = true }

    over : State
    over = record marked { worker = returned; caller = woken s.caller }

    asleep : State
    asleep = record over { caller = join_asleep }
