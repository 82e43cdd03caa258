-- ===== src/History/Fields.antt =====
-- history/PokerSiteHandBuilder.cpp: the fields of a line, and the seats of a hand.
pub mod Splitting
pub mod SeatLines
use phud.Prelude.{
  ℕ, zero, suc, ◌+◌, ◌-◌, List, [], ◌∷◌, ◌++◌, Bool, true, false, not, ◌&&◌, Bytes, codes, length,
  set, take, drop, replicate, ltb, ◌==◌, if◌then◌else◌, Option, none, some,
}
use phud.Prelude.Result.{Result, ok, err, ◌>>=◌, ◌>>◌, out_of_range, out_of_fuel}
use phud.Prelude.Words.{npos, add64, sub64}
use phud.Text.{find?, find_from, rfind, substr, starts_with, plus}
use phud.Strings.{to_size_t}
use phud.Text
use phud.TextFile
use phud.TextFile.{TextFile, seek}

-- ret.at(i) = v
unfoldable pub set_at {ℓ} : {A : Type ℓ} → List A → ℕ → A → Result (List A)
set_at xs i v = if ltb i (length xs) then ok (set xs i v) else err out_of_range

-- s.substr(pos)
unfoldable pub substr_from : Bytes → ℕ → Result Bytes
substr_from s place = if ltb (length s) place then err out_of_range else ok (drop place s)

abbrev pub none_token : Bytes
none_token = codes "none"

-- behind the loop of split; `offset != str.size() - 1` holds on an empty text, where the right side wraps
unfoldable pub split_end : Bytes → ℕ → ℕ → List Bytes → Result (List Bytes)
split_end str offset array_index ret =
    if not (offset + 1 == length str)
    then (substr_from str offset >>= λ token. set_at ret array_index token)
    else ok ret

-- str.find(delimiter, offset), as an option
abbrev pub find_behind : Bytes → Bytes → ℕ → Option ℕ
find_behind str delimiter offset =
    if ltb (length str) offset then none else plus offset (find? (drop offset str) delimiter)

unfoldable pub split_loop : ℕ → Bytes → Bytes → ℕ → ℕ → List Bytes → Result (List Bytes)
unfolding split_end
split_loop zero str delimiter offset array_index ret = err out_of_fuel
split_loop (suc fuel) str delimiter offset array_index ret =
    elim (find_behind str delimiter offset) [
      | none ↦ split_end str offset array_index ret
      | some place ↦ do
        token ← substr str offset (place - offset)
        ret' ← set_at ret array_index token
        split_loop fuel str delimiter (place + length delimiter) (array_index + 1) ret'
    ]

-- split: the loop makes at most as many rounds as the text has characters, and one more
unfoldable pub split : Bytes → Bytes → Result (List Bytes)
unfolding split_loop
split str delimiter = split_loop (suc (length str)) str delimiter 0 0 (replicate 5 none_token)

-- one round of the first loop of parseSeats, on its line
unfoldable pub parse_seat_line : Bytes → List Bytes → Result (List Bytes)
parse_seat_line line ret = do
  let place = find_from line (codes ": ") 5
  digits ← substr line 5 (sub64 place 5)
  seat ← to_size_t digits
  player ← substr line (add64 place 2) (sub64 (sub64 (rfind line (codes " (")) place) 2)
  set_at ret (sub64 seat 1) player

unfoldable pub seat_loop : ℕ → TextFile → List Bytes → Result (TextFile × List Bytes)
unfolding parse_seat_line
seat_loop zero tf ret = err out_of_fuel
seat_loop (suc fuel) tf ret = elim (starts_with tf.line (codes "Seat ")) [
  | false ↦ ok (tf, ret)
  | true ↦ parse_seat_line tf.line ret >>= λ ret'. seat_loop fuel (TextFile.skip tf) ret'
]

-- parseSeats
unfoldable pub parse_seats : ℕ → TextFile → Result (TextFile × List Bytes)
unfolding seat_loop
parse_seats fuel tf = do
  r ← seat_loop fuel tf (replicate 10 [])
  tf' ← seek (λ line. Text.contains line (codes " posts ")) fuel r.0
  ok (tf', r.1)
