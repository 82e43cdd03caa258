-- ===== src/Gui/TableWatcher/Changes.antt =====
-- The watcher reports the changes of the poker tables, and nothing else.
use phud.Prelude.{
  ◌≡◌, refl, ap, inl, inr, true, not, List, [], ◌∷◌, Bytes, map, is_empty, eq_of_bytes_eq,
  bytes_eq_self, if◌then◌else◌, arith, Bool-cases,
}
use phud.Filesystem.{keep}
use phud.Gui.TableWatcher.{is_poker_table, titles_eq, check_for_tables, watch}

pub eq_of_titles_eq : (s t : List Bytes) → titles_eq s t ≡ true → s ≡ t
eq_of_titles_eq [] [] h = refl
eq_of_titles_eq [] (y ∷ t) h = ground (arith, h)
eq_of_titles_eq (x ∷ s) [] h = ground (arith, h)
eq_of_titles_eq (x ∷ s) (y ∷ t) h = ground (arith, h, eq_of_bytes_eq x y, eq_of_titles_eq s t)

titles_eq_self : (s : List Bytes) → titles_eq s s ≡ true
titles_eq_self [] = refl
titles_eq_self (x ∷ s) = ground (arith, bytes_eq_self x, titles_eq_self s)

-- The lists that differ from the one before them.
abbrev pub changes : List Bytes → List (List Bytes) → List (List Bytes)
changes before [] = []
changes before (l ∷ ls) = let rest = changes l ls in if titles_eq before l then rest else l ∷ rest

-- The last of some lists, or the one before them.
abbrev pub last_of : List Bytes → List (List Bytes) → List Bytes
last_of before [] = before
last_of before (l ∷ ls) = last_of l ls

abbrev pub tables_of : List Bytes → List Bytes
tables_of windows = keep is_poker_table windows

-- One check takes over the poker tables of the windows, and reports them where they have changed.
check_for_tables-changes :
    (current windows : List Bytes)
    → check_for_tables current windows ≡ (
      tables_of windows,
      (if titles_eq current (tables_of windows) then [] else tables_of windows ∷ []),
    )
unfolding check_for_tables
check_for_tables-changes current windows = by_titles current (keep is_poker_table windows)
  where
    by_titles :
        (c t : List Bytes)
        → ◌≡◌ {A = List Bytes × List (List Bytes)}
            (if not (is_empty t)
              then (if not (titles_eq c t) then (t, t ∷ []) else (c, []))
              else if not (is_empty c)
              then ([], [] ∷ [])
              else (c, []))
            (t, (if titles_eq c t then [] else t ∷ []))
    by_titles [] [] = refl
    by_titles (x ∷ c) [] = refl
    by_titles c (y ∷ t) = elim (Bool-cases (titles_eq c (y ∷ t))) [
      | inl e ↦ rw e (ap (λ u. (u, [])) (eq_of_titles_eq c (y ∷ t) e))
      | inr n ↦ rw n refl
    ]

-- Over any sequence of checks the callback is called exactly with the lists of titles of poker
-- tables that differ from the list before them, the first one from the current titles; and the
-- titles at the end are those of the last check.
pub watch-changes :
    (current : List Bytes) (checks : List (List Bytes))
    → watch current checks
      ≡ (last_of current (map tables_of checks), changes current (map tables_of checks))
unfolding watch
watch-changes current [] = refl
watch-changes current (windows ∷ later) =
    let t = tables_of windows in
    rw (check_for_tables-changes current windows, watch-changes t later)
      (elim (Bool-cases (titles_eq current t)) [ inl e ↦ rw e refl | inr n ↦ rw n refl ])
