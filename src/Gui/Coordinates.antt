-- ===== src/Gui/Coordinates.antt =====
-- gui/Position.cpp: where the indicators of the players stand over a table's window. The coefficients are
-- doubles in the source; here they are ten-thousandths, and what is done with doubles is an argument.
pub mod Distinct
use phud.Prelude.{
  ℕ, ◌+◌, Bool, true, false, leb, Option, none, some, List, [], ◌∷◌, get_elem?, is_empty,
}
use phud.Prelude.Result.{
  Result, ok, err, ◌>>=◌, ◌>>◌, Build, debug, release, require, assertion_failed, out_of_range,
  undefined_behaviour,
}
use phud.Prelude.Words.{ℤ}
use phud.Entities.Seat.{
  Seat, seat_one, seat_two, seat_three, seat_four, seat_five, seat_six, seat_seven, seat_eight,
  seat_nine, seat_ten, seat_unknown, to_array_index,
}

-- Rectangle.hpp
pub record Rectangle : Type 0 where
  pub x : ℤ
  pub y : ℤ
  pub w : ℤ
  pub h : ℤ

-- double, with the conversions from int and of a literal in ten-thousandths, the two operations, and
-- limits::toInt
pub record Scale : Type 1 where
  pub Double : Type 0
  pub of_int : ℤ → Double
  pub literal : ℕ → Double
  pub plus : Double → Double → Double
  pub times : Double → Double → Double
  pub to_int : Double → ℤ

abbrev pub Row : Type 0
Row = List (ℕ × ℕ)

-- NB_SEATS_TO_COEFF.find
unfoldable pub coefficients : Seat → Option Row
coefficients seat_two = some (
    (5000, 9000)
    ∷ (5000, 1000)
    ∷ (0, 0)
    ∷ (0, 0)
    ∷ (0, 0)
    ∷ (0, 0)
    ∷ (0, 0)
    ∷ (0, 0)
    ∷ (0, 0)
    ∷ (0, 0)
    ∷ [])
coefficients seat_three = some (
    (5000, 9000)
    ∷ (3333, 3333)
    ∷ (6666, 3333)
    ∷ (0, 0)
    ∷ (0, 0)
    ∷ (0, 0)
    ∷ (0, 0)
    ∷ (0, 0)
    ∷ (0, 0)
    ∷ (0, 0)
    ∷ [])
coefficients seat_four = some (
    (5000, 5000)
    ∷ (2500, 2500)
    ∷ (5000, 2500)
    ∷ (7500, 2500)
    ∷ (0, 0)
    ∷ (0, 0)
    ∷ (0, 0)
    ∷ (0, 0)
    ∷ (0, 0)
    ∷ (0, 0)
    ∷ [])
coefficients seat_five = some (
    (5000, 10000)
    ∷ (2500, 7500)
    ∷ (2500, 2500)
    ∷ (7500, 2500)
    ∷ (7500, 7500)
    ∷ (0, 0)
    ∷ (0, 0)
    ∷ (0, 0)
    ∷ (0, 0)
    ∷ (0, 0)
    ∷ [])
coefficients seat_six = some (
    (5000, 9000)
    ∷ (2000, 7500)
    ∷ (2000, 2500)
    ∷ (5000, 1000)
    ∷ (8000, 2500)
    ∷ (8000, 7500)
    ∷ (0, 0)
    ∷ (0, 0)
    ∷ (0, 0)
    ∷ (0, 0)
    ∷ [])
coefficients seat_seven = some (
    (10000, 5000)
    ∷ (1000, 7500)
    ∷ (1000, 2500)
    ∷ (2500, 2500)
    ∷ (2500, 7500)
    ∷ (7500, 2500)
    ∷ (7500, 7500)
    ∷ (0, 0)
    ∷ (0, 0)
    ∷ (0, 0)
    ∷ [])
coefficients seat_eight = some (
    (0, 5000)
    ∷ (2500, 2500)
    ∷ (5000, 0)
    ∷ (7500, 2500)
    ∷ (10000, 5000)
    ∷ (7500, 7500)
    ∷ (5000, 10000)
    ∷ (2500, 7500)
    ∷ (0, 0)
    ∷ (0, 0)
    ∷ [])
coefficients seat_nine = some (
    (5000, 10000)
    ∷ (3500, 8500)
    ∷ (1250, 6350)
    ∷ (1250, 3500)
    ∷ (3500, 1250)
    ∷ (6250, 1250)
    ∷ (8500, 3500)
    ∷ (8500, 6350)
    ∷ (6250, 8500)
    ∷ (0, 0)
    ∷ [])
coefficients seat_ten = some (
    (5000, 10000)
    ∷ (3500, 8500)
    ∷ (1250, 6350)
    ∷ (1250, 3500)
    ∷ (3500, 1250)
    ∷ (5000, 0)
    ∷ (6250, 1250)
    ∷ (8500, 3500)
    ∷ (8500, 6350)
    ∷ (6250, 8500)
    ∷ [])
coefficients seat_one = none
coefficients seat_unknown = none

-- it->second, where the assertion on the iterator is no code in a release build
abbrev pub row_of : Build → Option Row → Result Row
row_of b (some row) = ok row
row_of debug none = err assertion_failed
row_of release none = err undefined_behaviour

-- std::array::at
abbrev pub at : Row → ℕ → Result (ℕ × ℕ)
at row i = elim (get_elem? row i) [ none ↦ err out_of_range | some p ↦ ok p ]

unfoldable pub coefficient : Build → Seat → Seat → Result (ℕ × ℕ)
unfolding coefficients to_array_index
coefficient b seat max_seats =
    row_of b (coefficients max_seats) >>= λ row. at row (to_array_index seat)

module _ (sc : Scale) where
  open sc use {of_int, literal, plus, times, to_int}

  unfoldable pub calculate_position : Build → Seat → Seat → Rectangle → Result (ℤ × ℤ)
  unfolding coefficient
  calculate_position b seat max_seats table_pos = coefficient b seat max_seats >>= λ coef. ok (
    to_int (plus (of_int table_pos.x) (times (literal coef.0) (of_int table_pos.w))),
    to_int (plus (of_int table_pos.y) (times (literal coef.1) (of_int table_pos.h))),
  )

  -- gui::buildPlayerIndicatorPosition
  unfoldable pub build_player_indicator_position : Build → Seat → Seat → Rectangle → Result (ℤ × ℤ)
  unfolding calculate_position to_array_index
  build_player_indicator_position b seat table_max_seats table_pos = do
    require b (leb (to_array_index seat) (to_array_index table_max_seats))
    calculate_position b seat table_max_seats table_pos
