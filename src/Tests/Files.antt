-- ===== src/Tests/Files.antt =====
-- A history directory, its files and the titles of table windows.
use phud.Prelude.{
  ℕ, ◌≤◌, ◌≡◌, ◌≢◌, ◌↔◌, ◌⊎◌, refl, Bool, true, false, ◌||◌, none, some, List, [], ◌∷◌, ◌++◌, Bytes,
  codes, bytes_eq, length, leb, not, ◌==◌, if◌then◌else◌, arith, All,
}
use phud.Prelude.Result.{ok, debug, release}
use phud.Text.{find?, contains}
use phud.Filesystem.{Disk, list_files_matching_pattern}
use phud.Filesystem.Patterns.{star, matches_pattern, split_pattern_by_wildcards}
use phud.Filesystem.Glob.{Glob}
use phud.Filesystem.Kinds.{Answers, is_lone_suffix}
use phud.Filesystem.Decision.{matches_pattern-Answers, lone_suffix_matches_wrongly}
use phud.Filesystem.Listing.{In, Matching, list_files_matching_pattern-Matching}
use phud.Filesystem.DirWatcher.{
  State, Handler, Caller, idle, arrived, locked, passed, in_callback, away, stopping, initial,
  new_watcher, start, modified, arrives, lock, skip_stopped, call, starts, stop_begins, stop_ends,
  handles, calls_in, Reach, here, next,
}
use phud.Filesystem.DirWatcher.Stopping.{
  now, later, pending, is_calling, calls_after_flag, no_call_after_stop,
}
use phud.History.WinamaxHistory.{
  get_table_name_from_table_window_title, get_history_file_from_table_window_title, table_pattern,
}
use phud.History.WinamaxHistory.Titles.{titled, before_hash, table_name-NameIn}
use phud.History.WinamaxHistory.Latest.{IsLatest, get_history_file-IsLatest}
use phud.History.WinamaxHistory.Stopping.{stop_loading, stop_loading_ends}
use phud.Tests.Hands.{lines_behind, first_line, stem}

glob_runs :
    matches_pattern debug (codes "20241223_Wichita_real.txt") (codes "*_Wichita_*.txt") ≡ ok true
unfolding matches_pattern find? contains
glob_runs = refl

not_lone : is_lone_suffix (codes "*_b_*.txt") ≡ false
unfolding split_pattern_by_wildcards
not_lone = refl

some_text : (c : ℕ) (s : Bytes) → ◌≢◌ {A = Bytes} (c ∷ s) []
some_text c s e = cc

matches_pattern-Answers_example :
    Answers
      (Glob (codes "*_b_*.txt") (codes "a_b_c.txt"))
      (matches_pattern debug (codes "a_b_c.txt") (codes "*_b_*.txt"))
matches_pattern-Answers_example =
    matches_pattern-Answers debug (codes "a_b_c.txt") (codes "*_b_*.txt") (some_text _ _)
      (some_text _ _) not_lone

lone_suffix_matches_wrongly_example :
    (matches_pattern release (codes "a.txt.bak") (star ∷ codes ".txt") ≡ ok true)
    × (¬ Glob (star ∷ codes ".txt") (codes "a.txt.bak"))
lone_suffix_matches_wrongly_example =
    lone_suffix_matches_wrongly release (codes "a") (codes ".txt") (codes ".bak") (some_text _ _)
      (some_text _ _) (omega arith) refl

abbrev pub history_dir : Bytes
history_dir = codes "d/history"

abbrev pub game_file : Bytes
game_file = codes "x_T_y.txt"

abbrev pub older_file : Bytes
older_file = codes "w_T_y.txt"

-- One directory, whose files all hold one hand. What stands first in it is the latest.
abbrev pub disk_of : List Bytes → Disk
disk_of files = record {
  is_dir = λ p. bytes_eq p history_dir;
  is_file = λ p. not (bytes_eq p history_dir);
  entries = λ p. if bytes_eq p history_dir then files else [];
  descendants = λ p. files;
  filename = λ p. p;
  stem = λ p. stem;
  child = λ dir s. dir ++ (codes "/" ++ s);
  normal = λ p. p;
  content = λ p. first_line ++ lines_behind;
  last_write_time = λ p. if bytes_eq p game_file then 2 else 1;
}

abbrev two_files : Disk
two_files = disk_of (game_file ∷ older_file ∷ codes "winamax_positioning_file.dat" ∷ [])

lone_T : is_lone_suffix (table_pattern (codes "T")) ≡ false
unfolding split_pattern_by_wildcards
lone_T = refl

list_files_matching_pattern-Matching_example :
    (l : List Bytes) × (list_files_matching_pattern two_files debug history_dir
        (table_pattern (codes "T"))
      ≡ ok l)
    × ((p : Bytes)
        → In p l ↔ (
            In p (two_files.entries history_dir)
            × Matching two_files (table_pattern (codes "T")) p))
list_files_matching_pattern-Matching_example =
    list_files_matching_pattern-Matching two_files debug history_dir (table_pattern (codes "T"))
      refl (some_text _ _) lone_T

abbrev title : Bytes
title = codes "T#12"

table_name-NameIn_example :
    get_table_name_from_table_window_title (titled true title) ≡ ok (codes "T")
table_name-NameIn_example =
    table_name-NameIn true title (codes "T") (before_hash (codes "12") refl (omega arith))
      (omega arith)

title_read : get_table_name_from_table_window_title (titled true title) ≡ ok (codes "T")
title_read =
    table_name-NameIn true title (codes "T") (before_hash (codes "12") refl (omega arith))
      (omega arith)

get_history_file-IsLatest_example :
    ((get_history_file_from_table_window_title two_files debug (codes "d") (titled true title)
        ≡ ok none)
      × ((p : Bytes)
          → In p (two_files.entries (two_files.child (codes "d") (codes "history")))
          → ¬ Matching two_files (table_pattern (codes "T")) p))
    ⊎ ((p : Bytes) × (get_history_file_from_table_window_title two_files debug
            (codes "d")
            (titled true title)
          ≡ ok (some p))
        × IsLatest two_files
            (two_files.child (codes "d") (codes "history"))
            (table_pattern (codes "T"))
            p)
get_history_file-IsLatest_example =
    get_history_file-IsLatest two_files debug (codes "d") (titled true title) (codes "T") refl
      title_read

abbrev watching : Bool → Handler → Caller → State
watching stopped handler caller = record {
  watcher = record { callback = some 1; watch_id = some 5; stopped = stopped };
  handler = handler;
  caller = caller;
  calls = [];
}

-- The flag is set while the library's thread stands between its test and its call.
abbrev between : State
between = watching true (passed 1 (codes "d/a.txt")) stopping

abbrev called : State
called = record between { handler = in_callback; calls = (1, codes "d/a.txt") ∷ [] }

calls_after_flag_example :
    called.calls ++ pending called.handler ≡ between.calls ++ pending between.handler
calls_after_flag_example =
    calls_after_flag between called refl
      (later now (handles (call between 1 (codes "d/a.txt") refl)) refl)

abbrev stopped : State
stopped = record (watching true idle away) {
  watcher = record { callback = none; watch_id = some 5; stopped = true };
}

stopped_reached : Reach initial stopped
unfolding initial new_watcher start
stopped_reached =
    next
      (next (next here (calls_in (starts initial 1 (some 5) refl refl)))
        (calls_in (stop_begins (watching false idle away) refl refl)))
      (calls_in (stop_ends (watching true idle stopping) refl refl))

abbrev told_late : State
told_late = record stopped { handler = arrived (codes "d/a.txt") }

abbrev locked_late : State
locked_late = record stopped { handler = locked (codes "d/a.txt") }

no_call_after_stop_example : (stopped.calls ≡ stopped.calls) × (is_calling stopped.handler ≡ false)
no_call_after_stop_example = no_call_after_stop stopped stopped stopped_reached refl refl (
    later
      (later
        (later now (handles (arrives stopped (codes "d") (codes "a.txt") modified refl refl)) refl)
        (handles (lock told_late (codes "d/a.txt") refl)) refl)
      (handles (skip_stopped locked_late (codes "d/a.txt") refl refl)) refl)

ready_later : (k j : ℕ) → 1 ≤ k → (leb 1 k || j == 0) ≡ true
ready_later k j h = ground (arith, h)

stop_loading_ends_example :
    (left : List Bool) × (stop_loading 3 (λ round task. leb 1 round || task == 0) (true ∷ true ∷ [])
      ≡ ok left)
    × (length left ≡ 2)
    × All (λ valid. valid ≡ false) left
stop_loading_ends_example =
    stop_loading_ends 1 (λ round task. leb 1 round || task == 0) (true ∷ true ∷ [])
      (refl, (refl, tt)) (λ k j h. ready_later k j h)
