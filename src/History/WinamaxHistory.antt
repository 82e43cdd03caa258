-- ===== src/History/WinamaxHistory.antt =====
-- history/WinamaxHistory.cpp: the files of a Winamax history directory, their loading in batches, and the
-- history file of a table's window.
-- A task of the thread pool is run whole, and the tasks of a batch in the order of their submission; in
-- the program they run at once. They meet in the player cache only, each of whose members holds its
-- mutex, and what a task returns does not depend on the players that others have added to it
-- (GameHistory/Sharing). The atomic flag m_stop is written by another thread, so each place where it is
-- read has its own answer (`Flag`).
pub mod Batches
pub mod Parsed
pub mod Taking
pub mod Loading
pub mod Acting
pub mod Alone
pub mod Titles
pub mod Stopping
pub mod Latest
use phud.Prelude.{
  ℕ, zero, suc, ◌+◌, ◌*◌, Bool, true, false, not, ◌&&◌, ◌||◌, ◌==◌, ltb, Option, none, some, List,
  [], ◌∷◌, ◌++◌, Bytes, codes, length, take, drop, is_empty, if◌then◌else◌,
}
use phud.Prelude.Result.{
  Error, assertion_failed, invalid_argument, out_of_range, phud_exception, time_exception,
  undefined_behaviour, unnamed_value, out_of_fuel, Result, ok, err, ◌>>=◌, ◌>>◌, Build,
}
use phud.Prelude.Words.{npos}
use phud.Text.{starts_with, find, substr}
use phud.Strings.Floats.{Doubles}
use phud.System.Times.{Times}
use phud.Entities.Player.{Player}
use phud.Entities.Site.{Site, new_site, merge, add_players}
use phud.Threads.PlayerCache.{PlayerCache, new_cache, extract_players}
use phud.Filesystem.{
  Disk, list_files_and_dirs, list_sub_dirs, list_txt_files_in_dir, list_files_matching_pattern,
  contains_a_file_ending_with,
}
use phud.History.GameHistory.{parse_game_history, parse_game_history_alone, winamax}

-- std::expected: the files, or one of the three messages
pub data HistoryFiles : Type 0 where
  files : List Bytes → HistoryFiles
  no_history_dir : HistoryFiles
  not_only_files : HistoryFiles
  empty_history_dir : HistoryFiles

-- WinamaxHistory::getTableNameFromTableWindowTitle
abbrev pub prefix : Bytes
prefix = codes "Winamax "

unfoldable pub without_prefix : Bytes → Result Bytes
without_prefix title =
    if starts_with title prefix then substr title (length prefix) npos else ok title

unfoldable pub get_table_name_from_table_window_title : Bytes → Result Bytes
unfolding without_prefix
get_table_name_from_table_window_title title = do
  working ← without_prefix title
  if find working (codes "#") == npos
      then substr working 0 (find working (codes " / "))
      else substr working 0 (find working (codes "#"))

-- files.back(), where there is one
unfoldable pub back : List Bytes → Option Bytes
back [] = none
back (p ∷ []) = some p
back (p ∷ q ∷ paths) = back (q ∷ paths)

abbrev pub table_pattern : Bytes → Bytes
table_pattern table_name = codes "*_" ++ (table_name ++ codes "_*.txt")

module _ (disk : Disk) where
  open disk use {is_dir, child, normal, stem, content, last_write_time}

  unfoldable pub get_history_files_or_error_message : Bytes → HistoryFiles
  get_history_files_or_error_message histo_dir =
      if not (is_dir histo_dir)
      then no_history_dir
      else if not (is_empty (list_sub_dirs disk histo_dir))
      then not_only_files
      else if not (is_empty (list_files_and_dirs disk histo_dir))
      then files (list_files_and_dirs disk histo_dir)
      else empty_history_dir

  unfoldable pub has_positioning_file : HistoryFiles → Bool
  has_positioning_file (files all) =
      contains_a_file_ending_with all (codes "winamax_positioning_file.dat")
  has_positioning_file no_history_dir = false
  has_positioning_file not_only_files = false
  has_positioning_file empty_history_dir = false

  -- WinamaxHistory::isValidHistory
  unfoldable pub is_valid_history : Bytes → Bool
  unfolding get_history_files_or_error_message has_positioning_file
  is_valid_history dir =
      has_positioning_file
        (get_history_files_or_error_message (normal (child dir (codes "history"))))

  unfoldable pub get_files : Bytes → List Bytes
  unfolding is_valid_history
  get_files dir =
      if is_valid_history dir then list_txt_files_in_dir disk (child dir (codes "history")) else []

  -- The files, and the calls of onSetNbFiles; `observed` tells that the function is not empty.
  unfoldable pub get_files_and_notify : Bytes → Bool → List Bytes × List ℕ
  unfolding get_files
  get_files_and_notify dir observed =
      let all = get_files dir in
      (all, if observed && not (is_empty all) then length all ∷ [] else [])

  -- std::ranges::sort by PathModificationTimeComparator; it does not say how it orders equal times
  unfoldable pub insert_by_time : Bytes → List Bytes → List Bytes
  insert_by_time p [] = p ∷ []
  insert_by_time p (q ∷ sorted) =
      if ltb (last_write_time q) (last_write_time p)
      then q ∷ insert_by_time p sorted
      else p ∷ q ∷ sorted

  unfoldable pub sort_by_time : List Bytes → List Bytes
  unfolding insert_by_time
  sort_by_time [] = []
  sort_by_time (p ∷ paths) = insert_by_time p (sort_by_time paths)

  -- WinamaxHistory::getHistoryFileFromTableWindowTitle
  unfoldable pub get_history_file_from_table_window_title :
      Build → Bytes → Bytes → Result (Option Bytes)
  unfolding get_table_name_from_table_window_title back sort_by_time
  get_history_file_from_table_window_title b dir title = do
    table_name ← get_table_name_from_table_window_title title
    found ←
        list_files_matching_pattern disk b (child dir (codes "history")) (table_pattern table_name)
    ok (back (sort_by_time found))

-- catch (const std::exception&)
abbrev pub is_exception : Error → Bool
is_exception invalid_argument = true
is_exception out_of_range = true
is_exception phud_exception = true
is_exception time_exception = true
is_exception assertion_failed = false
is_exception undefined_behaviour = false
is_exception unnamed_value = false
is_exception out_of_fuel = false

-- What m_stop is at each place that reads it, by the index of the batch's first file or of the file.
pub record Flag : Type 0 where
  pub at_batch : ℕ → Bool
  pub at_file : ℕ → Bool
  pub in_task : ℕ → Bool
  pub at_merge : ℕ → Bool

-- What the model does not follow: m_stop, and the cache that a parse leaves which throws in between
-- (by the file and the cache before).
pub record World : Type 0 where
  pub disk : Disk
  pub flag : Flag
  pub left : Bytes → PlayerCache → PlayerCache

module _ (fp : Doubles) (ts : Times) (b : Build) (fuel : ℕ) (w : World) where
  open fp use {Double}
  open ts use {Time}

  -- A task's result; a null pointer is `none`.
  abbrev pub TaskResult : Type 0
  TaskResult = Option (Site Double Time)

  -- The exception handlers of a task.
  unfoldable pub caught :
      PlayerCache → Result (PlayerCache × Site Double Time) → Result (PlayerCache × TaskResult)
  caught left_cache (ok (cache, site)) = ok (cache, some site)
  caught left_cache (err why) = if is_exception why then ok (left_cache, none) else err why

  -- The lambda of a task, but for onProgress.
  unfoldable pub run_task : Bytes → PlayerCache → Result (PlayerCache × TaskResult)
  unfolding caught
  run_task file cache =
      caught (w.left file cache)
        (parse_game_history fp ts b fuel (w.disk.stem file) (w.disk.content file) cache)

  -- The loop over one batch: the cache, the results in the order of submission, and the number of
  -- calls of onProgress. `i` is the index of the first file.
  unfoldable pub run_batch :
      ℕ → List Bytes → PlayerCache → Result (PlayerCache × List TaskResult × ℕ)
  unfolding run_task
  run_batch i [] cache = ok (cache, [], 0)
  run_batch i (file ∷ batch) cache = elim (w.flag.at_file i) [
    | true ↦ ok (cache, [], 0)
    | false ↦ run_task file cache >>= λ first. run_batch (i + 1) batch first.0 >>= λ rest.
        ok (rest.0, first.1 ∷ rest.1, (if w.flag.in_task i then rest.2 else rest.2 + 1))
  ]

  -- parseFilesAsyncBatched, with fuel for its batches. A batch ends before the next one begins.
  unfoldable pub batch_loop :
      ℕ → ℕ → ℕ → List Bytes → PlayerCache → Result (PlayerCache × List TaskResult × ℕ)
  unfolding run_batch
  batch_loop zero batch_size start all cache = err out_of_fuel
  batch_loop (suc rounds) batch_size start all cache =
      elim (ltb start (length all) && not (w.flag.at_batch start)) [
        | false ↦ ok (cache, [], 0)
        | true ↦ run_batch start (take batch_size (drop start all)) cache >>= λ first.
            batch_loop rounds batch_size (start + batch_size) all first.0 >>= λ rest.
            ok (rest.0, first.1 ++ rest.1, first.2 + rest.2)
      ]

  -- The loop of load that merges the results of the tasks.
  unfoldable pub merge_loop : ℕ → Site Double Time → List TaskResult → Result (Site Double Time)
  merge_loop i ret [] = ok ret
  merge_loop i ret (none ∷ tasks) = merge_loop (i + 1) ret tasks
  merge_loop i ret (some site ∷ tasks) = do
    ret' ← if w.flag.at_merge i then ok ret else merge b ret site
    merge_loop (i + 1) ret' tasks

  -- the body of load for files that there are
  unfoldable pub load_files : ℕ → List Bytes → Result (Site Double Time × ℕ)
  unfolding batch_loop merge_loop
  load_files batch_size all = do
    ret ← new_site b winamax
    (cache, tasks, progress) ← batch_loop (length all + 1) batch_size 0 all (new_cache winamax)
    merged ← merge_loop 0 ret tasks
    loaded ← add_players b merged (extract_players cache).0
    ok (loaded, progress)

  -- catch (const std::exception&) of load
  unfoldable pub or_empty_site : Result (Site Double Time × ℕ) → Result (Site Double Time × ℕ)
  or_empty_site (ok loaded) = ok loaded
  or_empty_site (err why) =
      if is_exception why then (do ret ← new_site b winamax; ok (ret, 0)) else err why

  -- WinamaxHistory::load: the site, and the number of calls of onProgress
  unfoldable pub load : ℕ → Bytes → Bool → Result (Site Double Time × ℕ)
  unfolding load_files or_empty_site get_files_and_notify
  load batch_size dir observed =
      let all = (get_files_and_notify w.disk dir observed).0 in
      or_empty_site (
        if is_empty all
        then (do ret ← new_site b winamax; ok (ret, 0))
        else load_files batch_size all)

  -- WinamaxHistory::reloadFile
  unfoldable pub reload_file : Bytes → Result TaskResult
  reload_file file =
      elim (parse_game_history_alone fp ts b fuel (w.disk.stem file) (w.disk.content file)) [
        | ok site ↦ ok (some site)
        | err why ↦ if is_exception why then ok none else err why
      ]

-- const std::size_t batchSize, by the number of the hardware's threads
unfoldable pub batch_size_of : ℕ → ℕ
batch_size_of hardware = if ltb 2 (hardware * 2) then hardware * 2 else 2
