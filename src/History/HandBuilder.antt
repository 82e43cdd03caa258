-- ===== src/History/HandBuilder.antt =====
-- history/WinamaxHandBuilder.cpp: one hand from the lines of a game's file. The loops of a hand share
-- one fuel, and each of them may use all of it.
pub mod PokerLine
pub mod Table
pub mod Actions
pub mod Hands
pub mod Sharing
use phud.Entities.Card.{Card}
use phud.Entities.Action.{Action}
use phud.Prelude.{ℕ, List, Bytes, codes, [], Bool, false}
use phud.Prelude.Result.{Result, ok, err, ◌>>=◌, Build}
use phud.Prelude.Words.{ℤ, pos}
use phud.Strings.Floats.{Doubles}
use phud.System.Times.{Times}
use phud.TextFile.{TextFile}
use phud.Entities.Seat.{Seat, seat_unknown}
use phud.Entities.Game.{Variant, no_variant, Limit}
use phud.Entities.Game
use phud.Entities.Hand.{Hand, GameType, cash_game, tournament, new_hand}
use phud.Threads.PlayerCache.{PlayerCache}
use phud.History.Fields.{parse_seats}
use phud.History.HandBuilder.PokerLine.{
  parse_start_of_line, level_date_hand_id, buy_in_level_date_hand_id, blinds_date_hand_id,
}
use phud.History.HandBuilder.Table.{
  TableLine, table_line, add_seats, parse_ante, parse_hero_cards, parse_board_cards,
}
use phud.History.HandBuilder.Actions.{parse_actions_and_winners}

-- history/GameData.hpp. Its constructor leaves the names empty and the variant and limit at none.
pub record GameData (D T : Type 0) : Type 0 where
  pub table_name : Bytes
  pub game_name : Bytes
  pub start_date : T
  pub small_blind : D
  pub big_blind : D
  pub buy_in : D
  pub nb_max_seats : Seat
  pub variant : Variant
  pub limit_type : Limit
  pub is_real_money : Bool

unfoldable pub new_game_data : {D T : Type 0} → D → D → D → Seat → T → GameData D T
new_game_data small_blind big_blind buy_in nb_max_seats start_date = record {
  table_name = [];
  game_name = [];
  start_date = start_date;
  small_blind = small_blind;
  big_blind = big_blind;
  buy_in = buy_in;
  nb_max_seats = nb_max_seats;
  variant = no_variant;
  limit_type = Game.none;
  is_real_money = false;
}

-- What getHand has read before the actions, and from the actions on.
pub record HandHead : Type 0 where
  pub reader : TextFile
  pub cache : PlayerCache
  pub table : TableLine
  pub seats : List Bytes
  pub ante : ℤ
  pub hero_cards : List Card

pub record HandTail (D : Type 0) : Type 0 where
  pub reader : TextFile
  pub actions : List (Action D)
  pub winners : List Bytes
  pub board_cards : List Card

-- What a builder leaves behind: the reader, the cache and the hand.
abbrev pub Built : Type 0 → Type 0
Built A = TextFile × PlayerCache × A

module _ (fp : Doubles) (ts : Times) (b : Build) (fuel : ℕ) where
  open fp use {Double, zero_double}
  open ts use {Time}

  unfoldable pub parse_head : TextFile → PlayerCache → Result HandHead
  parse_head tf cache = do
    (tf1, table) ← table_line b tf
    (tf2, seats) ← parse_seats fuel tf1
    cache1 ← add_seats b cache seats
    (tf3, ante) ← parse_ante fuel tf2
    (tf4, cache2, hero_cards) ← parse_hero_cards b tf3 cache1
    ok (record {
      reader = tf4;
      cache = cache2;
      table = table;
      seats = seats;
      ante = ante;
      hero_cards = hero_cards;
    })

  unfoldable pub parse_tail : TextFile → Bytes → Result (HandTail Double)
  parse_tail tf hand_id = do
    (tf1, actions, winners) ← parse_actions_and_winners fp b fuel tf hand_id
    (tf2, board_cards) ← parse_board_cards fuel tf1
    ok (record { reader = tf2; actions = actions; winners = winners; board_cards = board_cards })

  unfoldable pub hand_of :
      GameType → ℤ → Time → Bytes → HandHead → HandTail Double → Hand Double Time
  hand_of game_type level date hand_id head tail = record {
    seats = head.seats;
    winners = tail.winners;
    id = hand_id;
    site_name = codes "Winamax";
    table_name = head.table.table_name;
    actions = tail.actions;
    date = date;
    ante = head.ante;
    level = level;
    hero_cards = head.hero_cards;
    board_cards = tail.board_cards;
    game_type = game_type;
    button_seat = head.table.button_seat;
    max_seats = head.table.nb_max_seats;
  }

  -- getHand
  unfoldable pub get_hand :
      GameType → TextFile → PlayerCache → ℤ → Time → Bytes → Result (Built (Hand Double Time))
  unfolding parse_head parse_tail hand_of
  get_hand game_type tf cache level date hand_id = do
    head ← parse_head tf cache
    tail ← parse_tail head.reader hand_id
    hand ← new_hand b (hand_of game_type level date hand_id head tail)
    ok (tail.reader, head.cache, hand)

  -- WinamaxHandBuilder::buildCashgameHand
  unfoldable pub build_cashgame_hand : TextFile → PlayerCache → Result (Built (Hand Double Time))
  unfolding get_hand
  build_cashgame_hand tf pc = do
    s ← parse_start_of_line ts tf.line
    get_hand cash_game tf pc (pos 0) s.hand_start_date s.hand_id

  -- WinamaxHandBuilder::buildTournamentHand
  unfoldable pub build_tournament_hand : TextFile → PlayerCache → Result (Built (Hand Double Time))
  unfolding get_hand
  build_tournament_hand tf pc = do
    s ← level_date_hand_id ts tf.line
    get_hand tournament tf pc s.level s.date s.hand_id

  -- WinamaxHandBuilder::buildCashgameHandAndGameData
  unfoldable pub build_cashgame_hand_and_game_data :
      TextFile → PlayerCache → Result (Built (Hand Double Time × GameData Double Time))
  unfolding get_hand new_game_data
  build_cashgame_hand_and_game_data tf pc = do
    s ← blinds_date_hand_id ts fp tf.line
    (tf', pc', hand) ← get_hand cash_game tf pc (pos 0) s.date s.hand_id
    ok (
      tf',
      pc',
      (hand, new_game_data s.small_blind s.big_blind zero_double hand.max_seats hand.date),
    )

  -- WinamaxHandBuilder::buildTournamentHandAndGameData
  unfoldable pub build_tournament_hand_and_game_data :
      TextFile → PlayerCache → Result (Built (Hand Double Time × GameData Double Time))
  unfolding get_hand new_game_data
  build_tournament_hand_and_game_data tf pc = do
    s ← buy_in_level_date_hand_id ts fp tf.line
    (tf', pc', hand) ← get_hand tournament tf pc s.level s.date s.hand_id
    ok (tf', pc', (hand, new_game_data zero_double zero_double s.buy_in hand.max_seats hand.date))
