-- ===== src/Tests/Windows.antt =====
-- The table watcher, the flow of statistics and the places of the seats at concrete values.
use phud.Prelude.{ℕ, ◌≤◌, ◌≡◌, refl, true, some, List, [], ◌∷◌, ◌++◌, Bytes, codes, map, arith}
use phud.Prelude.Result.{ok, release}
use phud.Entities.Seat.{seat_two, seat_one, seat_unknown, to_array_index}
use phud.Statistics.Table.{TableStatistics}
use phud.Statistics.Flow.{
  Turn, producer, consumer, run_turns, valid_of, StatsQueue, run_turns-valid_of,
}
use phud.Threads.Queue.{new_queue}
use phud.Threads.Queue.Refinement.{Holds}
use phud.Gui.TableWatcher.{watch, is_poker_table}
use phud.Gui.TableWatcher.Changes.{tables_of, last_of, changes, watch-changes}
use phud.Gui.Coordinates.{coefficient, coefficients}
use phud.Gui.Coordinates.Distinct.{coefficient_places}

abbrev windows : List (List Bytes)
windows =
    (codes "mail" ∷ codes "Winamax Athens" ∷ [])
    ∷ (codes "Winamax Athens" ∷ [])
    ∷ (codes "mail" ∷ [])
    ∷ []

poker_table : is_poker_table (codes "Winamax Aalen 27") ≡ true
unfolding is_poker_table
poker_table = refl

watch-changes_example :
    watch [] windows ≡ (last_of [] (map tables_of windows), changes [] (map tables_of windows))
watch-changes_example = watch-changes [] windows

abbrev stats : Bytes → TableStatistics ℕ
stats table = record {
  table_stats = [];
  site = codes "Winamax";
  table = table;
  seats = [];
  max_seats = seat_two;
}

abbrev turns : List (Turn ℕ)
turns =
    producer (stats (codes "A"))
    ∷ producer (record (stats (codes "B")) { max_seats = seat_unknown })
    ∷ consumer
    ∷ consumer
    ∷ producer (stats (codes "C"))
    ∷ []

run_turns-valid_of_example :
    (seen : List (TableStatistics ℕ)) × (queue : StatsQueue ℕ) × (left : List (TableStatistics ℕ))
    × (run_turns turns (new_queue (TableStatistics ℕ)) ≡ ok (seen, queue))
    × Holds queue left
    × (seen ++ left ≡ valid_of turns)
run_turns-valid_of_example = run_turns-valid_of turns

abbrev row : List (ℕ × ℕ)
row =
    (5000, 9000)
    ∷ (5000, 1000)
    ∷ (0, 0)
    ∷ (0, 0)
    ∷ (0, 0)
    ∷ (0, 0)
    ∷ (0, 0)
    ∷ (0, 0)
    ∷ (0, 0)
    ∷ (0, 0)
    ∷ []

row_found : coefficients seat_two ≡ some row
unfolding coefficients
row_found = refl

first_seats :
    (to_array_index seat_one ≤ to_array_index seat_two)
    × (to_array_index seat_two ≤ to_array_index seat_two)
unfolding to_array_index
first_seats = omega arith

coefficient_places_example :
    (p q : ℕ × ℕ) × (coefficient release seat_one seat_two ≡ ok p)
    × (coefficient release seat_two seat_two ≡ ok q)
    × (p.0 ≤ 10000)
    × (p.1 ≤ 10000)
    × (p ≡ q → to_array_index seat_one ≡ to_array_index seat_two)
coefficient_places_example =
    coefficient_places release seat_two row row_found seat_one seat_two first_seats.0 first_seats.1
