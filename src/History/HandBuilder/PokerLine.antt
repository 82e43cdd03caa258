-- ===== src/History/HandBuilder/PokerLine.antt =====
-- history/WinamaxHandBuilder.cpp: the first line of a hand, which starts with "Winamax Poker".
use phud.Prelude.{ℕ, Bytes, codes, length, leb, not, drop, if◌then◌else◌}
use phud.Prelude.Result.{Result, ok, err, ◌>>=◌, phud_exception}
use phud.Prelude.Words.{ℤ, add64, sub64}
use phud.System.Times.{Times, new_time}
use phud.Strings.Floats.{Doubles}
use phud.Strings.{to_int, to_buy_in, to_amount}
use phud.Text.{starts_with, ends_with, find, find_from, rfind, substr}

pub record StartOfLine (T : Type 0) : Type 0 where
  pub hand_id_pos : ℕ
  pub hand_start_date : T
  pub hand_id : Bytes

pub record BuyInLevelDateHandId (D T : Type 0) : Type 0 where
  pub buy_in : D
  pub level : ℤ
  pub date : T
  pub hand_id : Bytes

pub record LevelDateHandId (T : Type 0) : Type 0 where
  pub level : ℤ
  pub date : T
  pub hand_id : Bytes

pub record SmallBlindBigBlindDateHandId (D T : Type 0) : Type 0 where
  pub small_blind : D
  pub big_blind : D
  pub date : T
  pub hand_id : Bytes

-- WINAMAX_HISTORY_TIME_FORMAT
abbrev pub time_format : Bytes
time_format = codes "%Y/%m/%d %H:%M:%S"

-- " - HandId: #".size()
abbrev pub hand_id_length : ℕ
hand_id_length = 12

module _ (ts : Times) where
  open ts use {Time}

  -- parseStartOfWinamaxPokerLine behind its first two tests
  unfoldable pub dated_line : Bytes → Result (StartOfLine Time)
  unfolding new_time
  dated_line line = do
    let date_pos = add64 (rfind line (codes " - ")) 3
    place ← if leb (length line) date_pos then err phud_exception else ok date_pos
    str_time ← substr line place (sub64 (rfind line (codes " ")) place)
    hand_start_date ← new_time ts (drop place line) time_format
    let hand_id_pos = add64 (find line (codes " - HandId: #")) hand_id_length
    hand_id ← substr line hand_id_pos (sub64 (find_from line (codes " - ") hand_id_pos) hand_id_pos)
    ok (record { hand_id_pos = hand_id_pos; hand_start_date = hand_start_date; hand_id = hand_id })

  -- parseStartOfWinamaxPokerLine
  unfoldable pub parse_start_of_line : Bytes → Result (StartOfLine Time)
  unfolding dated_line
  parse_start_of_line line =
      if not (starts_with line (codes "Winamax Poker"))
      then err phud_exception
      else if not (ends_with line (codes "UTC"))
      then err phud_exception
      else dated_line line

  -- the level of a tournament line, between " level: " and the hand's id
  unfoldable pub level_of : Bytes → ℕ → Result ℤ
  level_of line hand_id_pos = do
    let level_pos = add64 (find line (codes " level: ")) 8
    level ← substr line level_pos (sub64 (sub64 hand_id_pos hand_id_length) level_pos)
    to_int level

  -- getLevelDateHandIdFromTournamentWinamaxPokerLine
  unfoldable pub level_date_hand_id : Bytes → Result (LevelDateHandId Time)
  unfolding parse_start_of_line level_of
  level_date_hand_id line = do
    s ← parse_start_of_line line
    level ← level_of line s.hand_id_pos
    ok (record { level = level; date = s.hand_start_date; hand_id = s.hand_id })

  module _ (fp : Doubles) where
    open fp use {Double}

    -- getBuyInLevelDateHandIdFromTournamentWinamaxPokerLine
    unfoldable pub buy_in_level_date_hand_id : Bytes → Result (BuyInLevelDateHandId Double Time)
    unfolding parse_start_of_line level_of
    buy_in_level_date_hand_id line = do
      s ← parse_start_of_line line
      let buy_in_pos = add64 (find line (codes " buyIn: ")) 8
      let level_pos = add64 (find line (codes " level: ")) 8
      buy_in ← substr line buy_in_pos (sub64 (sub64 level_pos 8) buy_in_pos)
      level ← level_of line s.hand_id_pos
      ok (record {
        buy_in = to_buy_in fp buy_in;
        level = level;
        date = s.hand_start_date;
        hand_id = s.hand_id;
      })

    -- getSmallBlindBigBlindDateHandIdFromCashGameWinamaxPokerLine
    unfoldable pub blinds_date_hand_id : Bytes → Result (SmallBlindBigBlindDateHandId Double Time)
    unfolding parse_start_of_line
    blinds_date_hand_id line = do
      s ← parse_start_of_line line
      let small_blind_pos = add64 (find line (codes "(")) 1
      let big_blind_pos = add64 (find line (codes "/")) 1
      small_blind ← substr line small_blind_pos (sub64 (sub64 big_blind_pos 1) small_blind_pos)
      big_blind ← substr line big_blind_pos (sub64 (find line (codes ")")) 1)
      ok (record {
        small_blind = to_amount fp small_blind;
        big_blind = to_amount fp big_blind;
        date = s.hand_start_date;
        hand_id = s.hand_id;
      })
