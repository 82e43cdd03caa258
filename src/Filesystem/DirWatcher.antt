-- ===== src/Filesystem/DirWatcher.antt =====
-- filesystem/DirWatcher.cpp: a watcher of the text files of a directory, as interleaved steps of two
-- threads: the library's, which calls handleFileAction, and the caller of start and stop. The mutex is
-- held by the library's thread from its lock to the end of the callback, and by the caller within
-- start and within the second half of stop, each of which is one step; m_stopped is set outside of it.
-- What addWatch answers is an argument of start(): an identifier, or an error. The library may tell of a
-- file at any time, before removeWatch and behind it.
pub mod Stopping
use phud.Prelude.{
  ℕ, ◌≡◌, Bool, true, false, not, ◌&&◌, Option, none, some, List, [], ◌∷◌, ◌++◌, Bytes, codes,
}
use phud.Text.{ends_with}

-- efsw::Action
pub data Action : Type 0 where
  add delete modified moved : Action

pub record DirWatcher : Type 0 where
  -- m_callback: the number of the observer that gave it
  pub callback : Option ℕ
  pub watch_id : Option ℕ
  pub stopped : Bool

-- DirWatcherImpl::DirWatcherImpl
unfoldable pub new_watcher : DirWatcher
new_watcher = record { callback = none; watch_id = none; stopped = true }

abbrev pub is_seen : Action → Bool
is_seen add = true
is_seen modified = true
is_seen delete = false
is_seen moved = false

-- A call of a callback, with the path that it is given.
abbrev pub Call : Type 0
Call = ℕ × Bytes

-- handleFileAction goes on with a file
abbrev pub passes : Bytes → Action → Bool
passes filename action = is_seen action && ends_with filename (codes ".txt")

-- Where the library's thread stands: outside; behind the early return, before the lock; with the
-- mutex, before the test; with the mutex, behind the test, about to call; in the callback, with the mutex.
pub data Handler : Type 0 where
  idle : Handler
  arrived : Bytes → Handler
  locked : Bytes → Handler
  passed : ℕ → Bytes → Handler
  in_callback : Handler

abbrev pub holds_mutex : Handler → Bool
holds_mutex idle = false
holds_mutex (arrived path) = false
holds_mutex (locked path) = true
holds_mutex (passed f path) = true
holds_mutex in_callback = true

-- The caller: outside; in stop, with the flag set, before the lock.
pub data Caller : Type 0 where
  away stopping : Caller

pub record State : Type 0 where
  pub watcher : DirWatcher
  pub handler : Handler
  pub caller : Caller
  -- the calls of callbacks, oldest first
  pub calls : List Call

unfoldable pub initial : State
unfolding new_watcher
initial = record { watcher = new_watcher; handler = idle; caller = away; calls = [] }

-- The steps of handleFileAction.
pub data HandlerStep : State → State → Type 0 where
  returns_early :
      (s : State) (filename : Bytes) (action : Action)
      → s.handler ≡ idle
      → passes filename action ≡ false
      → HandlerStep s s
  arrives :
      (s : State) (dir filename : Bytes) (action : Action)
      → s.handler ≡ idle
      → passes filename action ≡ true
      → HandlerStep s (record s { handler = arrived (dir ++ (codes "/" ++ filename)) })
  lock :
      (s : State) (path : Bytes)
      → s.handler ≡ arrived path
      → HandlerStep s (record s { handler = locked path })
  pass :
      (s : State) (path : Bytes) (f : ℕ)
      → s.handler ≡ locked path
      → s.watcher.stopped ≡ false
      → s.watcher.callback ≡ some f
      → HandlerStep s (record s { handler = passed f path })
  skip_stopped :
      (s : State) (path : Bytes)
      → s.handler ≡ locked path
      → s.watcher.stopped ≡ true
      → HandlerStep s (record s { handler = idle })
  skip_empty :
      (s : State) (path : Bytes)
      → s.handler ≡ locked path
      → s.watcher.stopped ≡ false
      → s.watcher.callback ≡ none
      → HandlerStep s (record s { handler = idle })
  call :
      (s : State) (f : ℕ) (path : Bytes)
      → s.handler ≡ passed f path
      → HandlerStep s (record s { handler = in_callback; calls = s.calls ++ ((f, path) ∷ []) })
  return : (s : State) → s.handler ≡ in_callback → HandlerStep s (record s { handler = idle })

-- start, under the mutex
unfoldable pub start : DirWatcher → ℕ → Option ℕ → DirWatcher
start w observer none = record w { callback = some observer; watch_id = none }
start w observer (some watch) = record {
  callback = some observer;
  watch_id = some watch;
  stopped = false;
}

-- The steps of the caller of start and stop.
pub data CallerStep : State → State → Type 0 where
  starts :
      (s : State) (observer : ℕ) (watch : Option ℕ)
      → s.caller ≡ away
      → holds_mutex s.handler ≡ false
      → CallerStep s (record s { watcher = start s.watcher observer watch })
  stop_at_once : (s : State) → s.caller ≡ away → s.watcher.stopped ≡ true → CallerStep s s
  stop_begins :
      (s : State)
      → s.caller ≡ away
      → s.watcher.stopped ≡ false
      → CallerStep s (record s { watcher = record s.watcher { stopped = true }; caller = stopping })
  stop_ends :
      (s : State)
      → s.caller ≡ stopping
      → holds_mutex s.handler ≡ false
      → CallerStep s (record s { watcher = record s.watcher { callback = none }; caller = away })

pub data Step : State → State → Type 0 where
  handles : {s t : State} → HandlerStep s t → Step s t
  calls_in : {s t : State} → CallerStep s t → Step s t

pub data Reach (s : State) : State → Type 0 where
  here : Reach s s
  next : {t u : State} → Reach s t → Step t u → Reach s u
