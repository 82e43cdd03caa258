-- ===== src/Gui/TableService.antt =====
-- gui/TableService.cpp: the watcher of one history file, and the service that starts and stops it for a
-- table. What addWatch answers, the age of a file, and what the history and the database answer are
-- arguments. The reading behind a change of the file is a task of the thread pool, run whole.
use phud.Prelude.{
  ℕ, Bool, true, false, not, ◌||◌, ◌==◌, Option, none, some, List, [], ◌∷◌, ◌++◌, Bytes, codes,
  bytes_eq, if◌then◌else◌,
}
use phud.Prelude.Result.{Result, ok, ◌>>=◌}
use phud.Text.{starts_with}
use phud.Entities.Seat.{seat_unknown, to_array_index}
use phud.Statistics.Table.{TableStatistics, is_table_valid}
use phud.Filesystem.{Disk}
use phud.Filesystem.DirWatcher.{Action, modified, add, delete, moved}

-- EfswFileWatcher; the callback is the number of the observer that gave it
pub record FileWatcher : Type 0 where
  pub callback : Option ℕ
  pub file : Bytes
  pub filename : Bytes
  pub watch_id : Option ℕ
  pub stopped : Bool

-- EfswFileWatcher::EfswFileWatcher
unfoldable pub new_file_watcher : Disk → Bytes → FileWatcher
new_file_watcher disk file = record {
  callback = none;
  file = file;
  filename = disk.filename file;
  watch_id = none;
  stopped = true;
}

abbrev is_modified : Action → Bool
is_modified modified = true
is_modified add = false
is_modified delete = false
is_modified moved = false

-- EfswFileWatcher::handleFileAction: the calls of the callback, with the file that it is given
unfoldable pub handle_file_action : FileWatcher → Bytes → Action → List (ℕ × Bytes)
handle_file_action w filename action =
    if not (is_modified action) || not (bytes_eq filename w.filename)
    then []
    else elim w.callback [ none ↦ [] | some f ↦ (f, w.file) ∷ [] ]

-- EfswFileWatcher::start, by what addWatch answers
unfoldable pub start : FileWatcher → ℕ → Option ℕ → FileWatcher
start w observer none = record w { callback = some observer; watch_id = none }
start w observer (some watch) = record w {
  callback = some observer;
  watch_id = some watch;
  stopped = false;
}

-- EfswFileWatcher::stop: the watcher, and whether removeWatch is called
unfoldable pub stop : FileWatcher → FileWatcher × Bool
stop w = if not w.stopped then (record w { stopped = true }, true) else (w, false)

-- ProgramInfos::POKER_SITE_EXECUTABLE_STEMS
abbrev pub poker_site_executable_stems : List Bytes
poker_site_executable_stems = codes "Winamax Poker" ∷ codes "PMU" ∷ []

abbrev starts_with_one_of : Bytes → List Bytes → Bool
starts_with_one_of exe [] = false
starts_with_one_of exe (stem ∷ stems) = starts_with exe stem || starts_with_one_of exe stems

-- TableService::isPokerApp
unfoldable pub is_poker_app : Disk → Bytes → Bool
is_poker_app disk executable_name =
    starts_with_one_of (disk.filename executable_name) poker_site_executable_stems

module _ {D : Type 0} where
  -- Implementation::extractTableStatistics, on what the database answers
  unfoldable pub extract_table_statistics : TableStatistics D → Option (TableStatistics D)
  extract_table_statistics stats = if is_table_valid stats then some stats else none

  -- notify: the calls of observerCb
  unfoldable pub notify : TableStatistics D → List (TableStatistics D)
  notify stats =
      if to_array_index seat_unknown == to_array_index stats.max_seats then [] else stats ∷ []

  -- the end of the reload task, on what the database answers
  unfoldable pub reloaded : TableStatistics D → List (TableStatistics D)
  unfolding extract_table_statistics notify
  reloaded stats = elim (extract_table_statistics stats) [ none ↦ [] | some s ↦ notify s ]

-- TableService::startProducingStats, where there is a history: by the history file of the title, whether
-- it was written less than two minutes ago, what addWatch answers, and the observer. The new watcher
-- and the message.
unfoldable pub start_producing_stats :
    Disk
    → (Bytes → Bool)
    → Result (Option Bytes)
    → Result Bytes
    → ℕ
    → Option ℕ
    → Bytes
    → Option FileWatcher
    → Result (Option FileWatcher × Bytes)
unfolding start new_file_watcher
start_producing_stats disk is_recent histo_file table_name observer watch title watcher =
    histo_file >>= λ found. elim found [
      | none ↦ ok (watcher, codes "Couldn't get history file for table '" ++ (title ++ codes "'"))
      | some file ↦ elim (is_recent file) [
        | false ↦
            ok (watcher, codes "Couldn't get history file for table '" ++ (title ++ codes "'"))
        | true ↦ table_name >>= λ table.
            ok (some (start (new_file_watcher disk file) observer watch), [])
      ]
    ]

-- TableService::stopProducingStats, but for the wait for the reload task
unfoldable pub stop_producing_stats : Option FileWatcher → Option FileWatcher
unfolding stop
stop_producing_stats none = none
stop_producing_stats (some w) = some (stop w).0
