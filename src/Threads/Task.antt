-- ===== src/Threads/Task.antt =====
-- threads/PeriodicTask.hpp and PeriodicTask.cpp as interleaved steps of two threads: the worker that
-- ThreadPool::submit runs, and the caller of start, stop and join. The mutex is held by the worker
-- where it stands at `holding`, and by the caller at `join_locked` and `join_blind`; the section of
-- stop is one step. m_futureTaskResult belongs to the thread pool, which is not modelled: a task that
-- was submitted is assumed to run.
pub mod Stopping
use phud.Prelude.{ℕ, suc, ◌≡◌, ◌≢◌, Bool, true, false}

-- The worker: not there; at the top of its loop; with the mutex, before the test of m_stop; in
-- wait_until; past the wait, before the test of m_stop; past that test, about to call the task; in the
-- task; past the loop; before notify_one; returned.
pub data Worker : Type 0 where
  absent top holding sleeping deciding calling running ending notifying returned : Worker

-- The caller: outside; in join before its first test; with the mutex, before the predicate; with the
-- mutex, the predicate having failed; asleep in m_cv.wait.
pub data Caller : Type 0 where
  away joining join_locked join_blind join_asleep : Caller

pub record State : Type 0 where
  -- m_stop and m_taskIsStopped
  pub stop : Bool
  pub task_is_stopped : Bool
  pub worker : Worker
  pub caller : Caller
  -- how often the task was called
  pub calls : ℕ

pub initial : State
initial = record { stop = false; task_is_stopped = true; worker = absent; caller = away; calls = 0 }

abbrev pub holds_mutex : Caller → Bool
holds_mutex join_locked = true
holds_mutex join_blind = true
holds_mutex away = false
holds_mutex joining = false
holds_mutex join_asleep = false

-- There is no worker that still runs.
abbrev pub is_over : Worker → Bool
is_over absent = true
is_over returned = true
is_over _ = false

-- notify_one on m_cv: it wakes a caller that is asleep, who then has the mutex again.
abbrev pub woken : Caller → Caller
woken join_asleep = join_locked
woken away = away
woken joining = joining
woken join_locked = join_locked
woken join_blind = join_blind

-- The steps of the worker: the lambda that start submits.
pub data WorkerStep : State → State → Type 0 where
  lock :
      (s : State)
      → s.worker ≡ top
      → holds_mutex s.caller ≡ false
      → WorkerStep s (record s { worker = holding })
  leave :
      (s : State)
      → s.worker ≡ holding
      → s.stop ≡ true
      → WorkerStep s (record s { worker = deciding })
  sleep :
      (s : State)
      → s.worker ≡ holding
      → s.stop ≡ false
      → WorkerStep s (record s { worker = sleeping })
  time_out :
      (s : State)
      → s.worker ≡ sleeping
      → holds_mutex s.caller ≡ false
      → WorkerStep s (record s { worker = deciding })
  wake :
      (s : State)
      → s.worker ≡ sleeping
      → holds_mutex s.caller ≡ false
      → WorkerStep s (record s { worker = holding })
  pass :
      (s : State)
      → s.worker ≡ deciding
      → s.stop ≡ false
      → WorkerStep s (record s { worker = calling })
  call :
      (s : State)
      → s.worker ≡ calling
      → WorkerStep s (record s { worker = running; calls = suc s.calls })
  quit :
      (s : State)
      → s.worker ≡ deciding
      → s.stop ≡ true
      → WorkerStep s (record s { worker = ending })
  repeat_task : (s : State) → s.worker ≡ running → WorkerStep s (record s { worker = top })
  stop_task : (s : State) → s.worker ≡ running → WorkerStep s (record s { worker = ending })
  set_stopped :
      (s : State)
      → s.worker ≡ ending
      → WorkerStep s (record s { worker = notifying; task_is_stopped = true })
  notify :
      (s : State)
      → s.worker ≡ notifying
      → WorkerStep s (record s { worker = returned; caller = woken s.caller })

-- The steps of the caller, but for a spurious wake-up.
pub data CallerStep : State → State → Type 0 where
  start :
      (s : State)
      → s.caller ≡ away
      → is_over s.worker ≡ true
      → CallerStep s (record s { task_is_stopped = false; worker = top })
  stop_at_once : (s : State) → s.caller ≡ away → s.task_is_stopped ≡ true → CallerStep s s
  set_stop :
      (s : State)
      → s.caller ≡ away
      → s.task_is_stopped ≡ false
      → s.worker ≢ holding
      → CallerStep s (record s { stop = true; caller = joining })
  join : (s : State) → s.caller ≡ away → CallerStep s (record s { caller = joining })
  join_at_once :
      (s : State)
      → s.caller ≡ joining
      → s.task_is_stopped ≡ true
      → CallerStep s (record s { caller = away })
  join_lock :
      (s : State)
      → s.caller ≡ joining
      → s.task_is_stopped ≡ false
      → s.worker ≢ holding
      → CallerStep s (record s { caller = join_locked })
  join_sees :
      (s : State)
      → s.caller ≡ join_locked
      → s.task_is_stopped ≡ true
      → CallerStep s (record s { caller = away })
  join_misses :
      (s : State)
      → s.caller ≡ join_locked
      → s.task_is_stopped ≡ false
      → CallerStep s (record s { caller = join_blind })
  join_sleep :
      (s : State) → s.caller ≡ join_blind → CallerStep s (record s { caller = join_asleep })

pub data Step : State → State → Type 0 where
  works : {s t : State} → WorkerStep s t → Step s t
  calls_in : {s t : State} → CallerStep s t → Step s t
  spurious :
      (s : State)
      → s.caller ≡ join_asleep
      → s.worker ≢ holding
      → Step s (record s { caller = join_locked })

pub data Reach (s : State) : State → Type 0 where
  here : Reach s s
  next : {t u : State} → Reach s t → Step t u → Reach s u
