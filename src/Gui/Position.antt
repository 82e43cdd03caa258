-- ===== src/Gui/Position.antt =====
-- gui/Position.cpp: the seats of a table turned around the hero. An int that can be below 0 is a whole
-- number; no value here comes near its bounds.
pub mod Turning
use phud.Prelude.{
  ℕ, zero, suc, ◌+◌, ◌-◌, ◌%◌, ◌<◌, ◌≤◌, ◌≡◌, ◌≢◌, refl, inl, inr, Bool, true, false, not, ltb, leb,
  ◌==◌, if◌then◌else◌, arith, Bool-cases,
}
use phud.Prelude.Result.{Result, ok, err, ◌>>=◌, ◌>>◌, Build, debug, release, require}
use phud.Prelude.Words.{ℤ, pos, negsuc, neg}
use phud.Entities.Seat.{
  Seat, seat_one, seat_two, seat_three, seat_four, seat_five, seat_six, seat_seven, seat_eight,
  seat_nine, seat_ten, seat_unknown, to_array_index, to_int, from_int, seat_cast,
}

abbrev pub sub_int : ℕ → ℕ → ℤ
sub_int a b = if leb b a then pos (a - b) else negsuc (b - a - 1)

abbrev pub add_int : ℕ → ℤ → ℤ
add_int a (pos n) = pos (a + n)
add_int a (negsuc n) = sub_int a (n + 1)

-- a % m of an int, which has the sign of a
rem_int : ℤ → ℕ → ℤ
rem_int (pos n) m = pos (n % m)
rem_int (negsuc n) m = neg ((n + 1) % m)

module _ (b : Build) where
  -- rotate
  rotate : Seat → ℤ → Seat → Result Seat
  unfolding rem_int to_int from_int
  rotate to_be_rotated nb_clicks max_seats =
      from_int b
        (add_int 1 (rem_int (add_int (to_int to_be_rotated - 1) nb_clicks) (to_int max_seats)))

  -- gui::rotateRelativeToHero
  unfoldable pub rotate_relative_to_hero : Seat → Seat → Seat → Result Seat
  unfolding rotate to_array_index to_int
  rotate_relative_to_hero seat hero_seat max_seats = do
    require b (leb (to_array_index seat) (to_array_index max_seats))
    require b (leb (to_array_index hero_seat) (to_array_index max_seats))
    require b (not (to_array_index seat_unknown == to_array_index hero_seat))
    require b (not (to_array_index seat_unknown == to_array_index seat))
    require b (not (to_array_index seat_unknown == to_array_index max_seats))
    if to_array_index seat_one == to_array_index hero_seat
        then ok seat
        else rotate seat (add_int 1 (sub_int (to_int max_seats) (to_int hero_seat))) max_seats
