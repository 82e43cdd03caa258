-- ===== src/Entities/Seat.antt =====
-- entities/Seat.hpp and Seat.cpp: the seats of a table, their names and their numbers.
-- constants/TableConstants.hpp: MAX_SEATS and MAX_SEAT_NUMBER are both 10.
use phud.Prelude.{true}
use phud.Prelude.{
  ℕ, zero, suc, ◌+◌, ◌<◌, ◌≡◌, ◌≢◌, refl, List, [], ◌∷◌, Bytes, codes, false, ltb, leb, ◌&&◌, arith,
}
use phud.Prelude.Result.{
  Result, Error, ok, err, ◌>>=◌, ◌>>◌, Build, debug, release, require, unnamed_value,
  assertion_failed, invalid_argument,
}
use phud.Prelude.Words.{ℤ, pos, negsuc}
use phud.Enums.{to_string, from_string, is_valid, to_string-from, is_valid-from}

pub data Seat : Type 0 where
  seat_one seat_two seat_three seat_four seat_five : Seat
  seat_six seat_seven seat_eight seat_nine seat_ten : Seat
  seat_unknown : Seat

abbrev pub max_seats : ℕ
max_seats = 10

-- the short under an enumerator, and tableSeat::toArrayIndex
unfoldable pub to_array_index : Seat → ℕ
to_array_index seat_one = 0
to_array_index seat_two = 1
to_array_index seat_three = 2
to_array_index seat_four = 3
to_array_index seat_five = 4
to_array_index seat_six = 5
to_array_index seat_seven = 6
to_array_index seat_eight = 7
to_array_index seat_nine = 8
to_array_index seat_ten = 9
to_array_index seat_unknown = 10

-- tableSeat::toInt
unfoldable pub to_int : Seat → ℕ
unfolding to_array_index
to_int seat = to_array_index seat + 1

-- static_cast<Seat>(i)
unfoldable pub seat_cast : ℕ → Result Seat
seat_cast zero = ok seat_one
seat_cast (suc zero) = ok seat_two
seat_cast (suc (suc zero)) = ok seat_three
seat_cast (suc (suc (suc zero))) = ok seat_four
seat_cast (suc (suc (suc (suc zero)))) = ok seat_five
seat_cast (suc (suc (suc (suc (suc zero))))) = ok seat_six
seat_cast (suc (suc (suc (suc (suc (suc zero)))))) = ok seat_seven
seat_cast (suc (suc (suc (suc (suc (suc (suc zero))))))) = ok seat_eight
seat_cast (suc (suc (suc (suc (suc (suc (suc (suc zero)))))))) = ok seat_nine
seat_cast (suc (suc (suc (suc (suc (suc (suc (suc (suc zero))))))))) = ok seat_ten
seat_cast (suc (suc (suc (suc (suc (suc (suc (suc (suc (suc zero)))))))))) = ok seat_unknown
seat_cast (suc (suc (suc (suc (suc (suc (suc (suc (suc (suc (suc n))))))))))) = err unnamed_value

-- SEAT_MAPPER
unfoldable pub seat_names : List (Seat × Bytes)
seat_names =
    (seat_one, codes "1")
    ∷ (seat_two, codes "2")
    ∷ (seat_three, codes "3")
    ∷ (seat_four, codes "4")
    ∷ (seat_five, codes "5")
    ∷ (seat_six, codes "6")
    ∷ (seat_seven, codes "7")
    ∷ (seat_eight, codes "8")
    ∷ (seat_nine, codes "9")
    ∷ (seat_ten, codes "10")
    ∷ []

-- tableSeat::toString
unfoldable pub seat_to_string : Seat → Result Bytes
unfolding to_array_index seat_names to_string
seat_to_string s = to_string to_array_index seat_names s

module _ (b : Build) where
  -- tableSeat::fromString
  unfoldable pub seat_from_string : Bytes → Result Seat
  unfolding seat_names from_string is_valid
  seat_from_string s = do
    require b (is_valid to_array_index seat_names s)
    from_string to_array_index seat_names s

  -- tableSeat::fromArrayIndex<std::size_t>
  unfoldable pub from_array_index : ℕ → Result Seat
  unfolding seat_cast
  from_array_index i = do require b (ltb i max_seats); seat_cast i

  -- tableSeat::fromInt
  unfoldable pub from_int : ℤ → Result Seat
  unfolding seat_cast
  from_int (pos n) = do
    require b (ltb 0 n && leb n 10)
    elim n [ zero ↦ err unnamed_value | suc m ↦ seat_cast m ]
  from_int (negsuc n) = do require b false; err unnamed_value

pub seat_at : (n : ℕ) → n < 10 → (r : Seat) × (seat_cast n ≡ ok r) × (to_array_index r ≡ n)
unfolding seat_cast to_array_index
seat_at zero h = (seat_one, refl, refl)
seat_at (suc zero) h = (seat_two, refl, refl)
seat_at (suc (suc zero)) h = (seat_three, refl, refl)
seat_at (suc (suc (suc zero))) h = (seat_four, refl, refl)
seat_at (suc (suc (suc (suc zero)))) h = (seat_five, refl, refl)
seat_at (suc (suc (suc (suc (suc zero))))) h = (seat_six, refl, refl)
seat_at (suc (suc (suc (suc (suc (suc zero)))))) h = (seat_seven, refl, refl)
seat_at (suc (suc (suc (suc (suc (suc (suc zero))))))) h = (seat_eight, refl, refl)
seat_at (suc (suc (suc (suc (suc (suc (suc (suc zero)))))))) h = (seat_nine, refl, refl)
seat_at (suc (suc (suc (suc (suc (suc (suc (suc (suc zero))))))))) h = (seat_ten, refl, refl)
seat_at (suc (suc (suc (suc (suc (suc (suc (suc (suc (suc n)))))))))) h = absurd (omega arith)

pub from_array_index-lt :
    (b : Build) (n : ℕ)
    → n < 10
    → (r : Seat) × (from_array_index b n ≡ ok r) × (to_array_index r ≡ n)
unfolding from_array_index
from_array_index-lt debug n h = let e : ltb n 10 ≡ true = ground arith in rw e (seat_at n h)
from_array_index-lt release n h = seat_at n h

-- Every seat but the unknown one is read back from its name, its number and its index, in either
-- build.
pub seat_round_trips :
    (b : Build) (s : Seat)
    → s ≢ seat_unknown
    → ((seat_to_string s >>= seat_from_string b) ≡ ok s)
      × (from_int b (pos (to_int s)) ≡ ok s)
      × (from_array_index b (to_array_index s) ≡ ok s)
unfolding seat_to_string seat_from_string from_int from_array_index to_int to_array_index
seat_round_trips debug seat_unknown h = absurd (h refl)
seat_round_trips release seat_unknown h = absurd (h refl)
seat_round_trips _ _ h = (refl, refl, refl)

names_only :
    (b : Build) (t : Bytes) (s : Seat)
    → seat_from_string b t ≡ ok s
    → from_string to_array_index seat_names t ≡ ok s
unfolding seat_from_string
names_only debug t s h = ground (arith, is_valid-from to_array_index seat_names t)
names_only release t s h = h

-- A text that is read as a seat, in either build, is the name of that seat.
pub to_string-seat_from_string :
    (b : Build) (t : Bytes) (s : Seat) → seat_from_string b t ≡ ok s → seat_to_string s ≡ ok t
unfolding seat_to_string
to_string-seat_from_string b t s h =
    to_string-from to_array_index seat_names t s (unfold seat_names to_array_index in refl)
      (names_only b t s h)

-- How a text that names no seat is refused.
abbrev pub bad_name : Build → Error
bad_name debug = assertion_failed
bad_name release = invalid_argument

-- A text that names no seat fails an assertion in a debug build, and is refused with an exception
-- in a release build.
pub seat_from_string_refuses :
    (b : Build) (t : Bytes)
    → is_valid to_array_index seat_names t ≡ false
    → seat_from_string b t ≡ err (bad_name b)
unfolding seat_from_string
seat_from_string_refuses debug t h = rw h
seat_from_string_refuses release t h = is_valid-from to_array_index seat_names t h

-- A number that is no seat's: a debug build stops.
pub from_int_refuses : (n : ℕ) → 10 < n → from_int debug (pos n) ≡ err assertion_failed
unfolding from_int
from_int_refuses n h = ground arith
