-- ===== src/Statistics/Table.antt =====
-- statistics/TableStatistics.hpp and TableStatistics.cpp: the figures of the players of a table, by seat.
pub mod Hero
use phud.Prelude.{
  ℕ, zero, suc, ◌+◌, ◌-◌, ◌<◌, ◌≤◌, ◌≡◌, ◌≢◌, refl, ap, ◌∙◌, inl, inr, ◌⊎◌, List, [], ◌∷◌, Bytes,
  Bool, true, false, not, ltb, leb, ◌||◌, ◌==◌, if◌then◌else◌, Option, none, some, arith,
  Bool-cases, Option-cases, length, get_elem?, set, take, replicate, get_elem?-set_self,
  get_elem?-set_other,
}
use phud.Prelude.Result.{Result, ok, err, out_of_range, ◌>>=◌, Build}
use phud.Entities.Seat.{
  Seat, seat_one, seat_two, seat_three, seat_four, seat_five, seat_six, seat_seven, seat_eight,
  seat_nine, seat_ten, seat_unknown, to_array_index, to_int, from_array_index,
}
use phud.Statistics.Player.{PlayerStatistics}

-- The null pointer of an empty seat is `none`.
pub record TableStatistics (D : Type 0) : Type 0 where
  pub table_stats : List (Option (PlayerStatistics D))
  pub site : Bytes
  pub table : Bytes
  pub seats : List Seat
  pub max_seats : Seat

abbrev pub all_seats : List Seat
all_seats =
    seat_one ∷ seat_two ∷ seat_three ∷ seat_four ∷ seat_five ∷ seat_six ∷ seat_seven ∷ seat_eight
    ∷ seat_nine ∷ seat_ten ∷ []

-- getSeats in the anonymous namespace
unfoldable pub get_seats : Seat → List Seat
unfolding to_int
get_seats max_seat =
    let count = to_int max_seat in if leb count 0 || ltb 10 count then [] else take count all_seats

module _ {D : Type 0} where
  -- isHero
  unfoldable pub is_hero : Option (PlayerStatistics D) → Bool
  is_hero none = false
  is_hero (some p) = p.is_hero

  -- TableStatistics::TableStatistics
  unfoldable pub new_table_statistics :
      Bytes → Bytes → Seat → List (Option (PlayerStatistics D)) → TableStatistics D
  unfolding get_seats
  new_table_statistics site table max_seats table_stats = record {
    table_stats = table_stats;
    site = site;
    table = table;
    seats = get_seats max_seats;
    max_seats = max_seats;
  }

  -- TableStatistics::isValid
  unfoldable pub is_table_valid : TableStatistics D → Bool
  unfolding to_array_index
  is_table_valid t = not (to_array_index seat_unknown == to_array_index t.max_seats)

  -- std::ranges::find_if, as an index that is the length where there is none
  unfoldable pub hero_index : List (Option (PlayerStatistics D)) → ℕ
  unfolding is_hero
  hero_index [] = 0
  hero_index (p ∷ stats) = if is_hero p then 0 else suc (hero_index stats)

  -- TableStatistics::getHeroSeat
  unfoldable pub get_hero_seat : Build → TableStatistics D → Result Seat
  unfolding hero_index
  get_hero_seat b t =
      if hero_index t.table_stats == length t.table_stats
      then ok seat_unknown
      else from_array_index b (hero_index t.table_stats)

  -- TableStatistics::extractPlayerStatistics
  unfoldable pub extract_player_statistics :
      TableStatistics D → Seat → Result (Option (PlayerStatistics D) × TableStatistics D)
  unfolding to_array_index
  extract_player_statistics t seat = elim (get_elem? t.table_stats (to_array_index seat)) [
    | none ↦ err out_of_range
    | some p ↦ ok (p, record t { table_stats = set t.table_stats (to_array_index seat) none })
  ]
