-- ===== src/Tests/Tables.antt =====
-- Tables at concrete values.
use phud.Prelude.{ℕ, ◌+◌, ◌%◌, ◌≤◌, ◌≡◌, [], ◌∷◌, codes, none, some, Option, true, arith, replicate}
use phud.Prelude.Result.{ok, debug}
use phud.Prelude.Words.{pos}
use phud.Entities.Seat.{Seat, seat_three, seat_five, seat_nine, to_array_index, to_int}
use phud.Gui.Position.{rotate_relative_to_hero}
use phud.Gui.Position.Turning.{rotate_relative_to_hero-turned}
use phud.Statistics.Player.{PlayerStatistics, new_player_statistics}
use phud.Statistics.Table.{TableStatistics}
use phud.Tests.Samples.{whole}

rotate_relative_to_hero-turned_example :
    (r : Seat) × (rotate_relative_to_hero debug seat_three seat_five seat_nine ≡ ok r)
    × (to_array_index r ≤ 8)
    × ((to_array_index r + 4) % 9 ≡ 2)
unfolding to_array_index to_int
rotate_relative_to_hero-turned_example =
    rotate_relative_to_hero-turned debug seat_three seat_five seat_nine (omega arith) (omega arith)
      (omega arith)

abbrev hero : Option (PlayerStatistics ℕ)
hero = some (new_player_statistics whole (codes "a") (codes "w") true (pos 1) 20 10)

abbrev table : TableStatistics ℕ
table = record {
  table_stats = none ∷ none ∷ hero ∷ replicate 7 none;
  site = codes "w";
  table = codes "t";
  seats = [];
  max_seats = seat_three;
}
