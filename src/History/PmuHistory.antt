-- ===== src/History/PmuHistory.antt =====
-- history/PmuHistory.cpp: placeholders for another poker site, which accept no directory and return
-- nothing.
use phud.Prelude.{Bool, false, Option, none, [], Bytes}

-- PmuHistory::isValidHistory
abbrev pub is_valid_history : Bytes → Bool
is_valid_history history_dir = false

-- PmuHistory::getTableNameFromTableWindowTitle
abbrev pub get_table_name_from_table_window_title : Bytes → Bytes
get_table_name_from_table_window_title title = []

-- PmuHistory::load and PmuHistory::reloadFile
abbrev pub load : {S : Type 0} → Bytes → Option S
load history_dir = none

abbrev pub reload_file : {S : Type 0} → Bytes → Option S
reload_file file = none

-- PmuHistory::getHistoryFileFromTableWindowTitle
abbrev pub get_history_file_from_table_window_title : Bytes → Bytes → Option Bytes
get_history_file_from_table_window_title history_dir title = none
