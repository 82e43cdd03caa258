-- ===== src/Gui/TableWatcher.antt =====
-- gui/TableWatcher.cpp: the watcher of the poker tables' windows. The titles of all windows are an
-- argument of each check. The calls of the callback are a list.
pub mod Changes
use phud.Prelude.{
  ℕ, suc, ◌+◌, Bool, true, false, not, ◌&&◌, ◌||◌, ◌==◌, ltb, Option, none, some, List, [], ◌∷◌,
  ◌++◌, Bytes, codes, length, get_elem?, is_empty, bytes_eq, if◌then◌else◌,
}
use phud.Text.{starts_with}
use phud.Filesystem.{keep}

-- std::ranges::count(title, ' ')
unfoldable pub count_spaces : Bytes → ℕ
count_spaces [] = 0
count_spaces (c ∷ s) = let n = count_spaces s in if c == 32 then suc n else n

abbrev pub is_space_at : Bytes → ℕ → Bool
is_space_at s i = elim (get_elem? s i) [ none ↦ false | some c ↦ c == 32 ]

-- The places that title.at is asked for are in the title, by the test of its length before.
unfoldable pub is_poker_table : Bytes → Bool
unfolding count_spaces
is_poker_table title =
    starts_with title (codes "Winamax")
    && (ltb 10 (length title)
        && (is_space_at title 7
            && (not (is_space_at title 8) && (count_spaces title == 1 || count_spaces title == 2))))

-- std::vector's ==
abbrev pub titles_eq : List Bytes → List Bytes → Bool
titles_eq [] [] = true
titles_eq [] (t ∷ ts) = false
titles_eq (s ∷ ss) [] = false
titles_eq (s ∷ ss) (t ∷ ts) = bytes_eq s t && titles_eq ss ts

-- Implementation::checkForTables, on m_currentTableWindowTitles and the titles of all windows: the new
-- titles, and the arguments of the callback's calls
unfoldable pub check_for_tables : List Bytes → List Bytes → List Bytes × List (List Bytes)
unfolding is_poker_table
check_for_tables current windows =
    let titles = keep is_poker_table windows in
    if not (is_empty titles)
    then (if not (titles_eq current titles) then (titles, titles ∷ []) else (current, []))
    else if not (is_empty current)
    then ([], [] ∷ [])
    else (current, [])

-- the task of the watcher, called once for each list of windows: the titles at the end, and all calls
unfoldable pub watch : List Bytes → List (List Bytes) → List Bytes × List (List Bytes)
unfolding check_for_tables
watch current [] = (current, [])
watch current (windows ∷ later) =
    let first = check_for_tables current windows in
    let rest = watch first.0 later in (rest.0, first.1 ++ rest.1)

unfoldable pub get_current_table_names : List Bytes → List Bytes
get_current_table_names current = current

unfoldable pub get_table_count : List Bytes → ℕ
get_table_count current = length current
