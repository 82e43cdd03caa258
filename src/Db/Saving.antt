-- ===== src/Db/Saving.antt =====
-- db/Database.cpp: the statements that saving players, games and hands sends to SQLite, in their order. A
-- statement that SQLite refuses ends the saving with an exception; the model has the statements of
-- a saving in which it accepts all. std::to_string of a double and the printing of a date are arguments.
pub mod Players
use phud.Prelude.{
  ℕ, zero, suc, ◌+◌, Bool, true, false, not, ◌&&◌, none, some, List, [], ◌∷◌, ◌++◌, Bytes,
  get_elem?, is_empty,
}
use phud.Prelude.Result.{Result, ok, err, undefined_behaviour, ◌>>=◌, ◌>>◌, Build, require}
use phud.Strings.Floats.{Doubles}
use phud.Entities.Card.{Card}
use phud.Entities.Seat.{Seat}
use phud.Entities.Seat
use phud.Entities.Player.{Player}
use phud.Entities.Action.{Action}
use phud.Entities.Hand.{Hand, GameType, no_game_type, cash_game, tournament, is_winner}
use phud.Entities.Game.{Game, CashGame, Tournament, view_hands}
use phud.Db.Insertor.{SqlInsertor, new_insertor, new_insert, build}
use phud.Db.Insertor
use phud.Db.Templates

-- the statement that build returns
abbrev pub statement : SqlInsertor → Result Bytes
statement s = build s >>= λ built. ok built.1

-- GAME_TYPE_TO_ID_AND_COLUMN_NAME.find(type)->second
unfoldable pub game_hand_template : GameType → Result Bytes
game_hand_template cash_game = ok Templates.insert_cashgame_hand
game_hand_template tournament = ok Templates.insert_tournament_hand
game_hand_template no_game_type = err undefined_behaviour

-- an element of a std::array, which is always there
abbrev pub card_at : List Card → ℕ → Result Card
card_at cards i = elim (get_elem? cards i) [ none ↦ err undefined_behaviour | some c ↦ ok c ]

-- std::ranges::all_of the seats: they are empty
unfoldable pub all_empty : List Bytes → Bool
all_empty [] = true
all_empty (name ∷ seats) = is_empty name && all_empty seats

module _ (b : Build) where
  -- Database::save of players
  unfoldable pub insert_players : List Player → SqlInsertor → Result SqlInsertor
  insert_players [] query = ok query
  insert_players (p ∷ players) query =
      Insertor.player_name b p.name query
      >>= Insertor.site_name b p.site
      >>= Insertor.is_hero b p.is_hero
      >>= Insertor.comments b p.comments
      >>= λ s. insert_players players (new_insert s)

  unfoldable pub save_players : List Player → Result (List Bytes)
  unfolding insert_players
  save_players [] = ok []
  save_players (p ∷ players) = do
    query ← new_insertor b Templates.insert_player
    filled ← insert_players (p ∷ players) query
    sql ← statement filled
    ok (sql ∷ [])

  -- saveSite, by the name of the site
  unfoldable pub save_site : Bytes → Result Bytes
  save_site name = new_insertor b Templates.insert_site >>= Insertor.site_name b name >>= statement

module _ (b : Build) {D T : Type 0} (to_text : D → Bytes) (to_sqlite_date : T → Bytes) where
  -- insertGame
  unfoldable pub insert_game : Game D T → Result Bytes
  insert_game g =
      new_insertor b Templates.insert_game
      >>= Insertor.game_id b g.id
      >>= Insertor.site_name b g.site
      >>= Insertor.game_name b g.name
      >>= Insertor.variant b g.variant
      >>= Insertor.limit_type b g.limit_type
      >>= Insertor.is_real_money b g.is_real_money
      >>= Insertor.nb_max_seats b g.nb_max_seats
      >>= Insertor.start_date b (to_sqlite_date g.start_date)
      >>= statement

  -- insertSpecificGame of a tournament
  unfoldable pub insert_specific_tournament : Tournament D T → Result Bytes
  insert_specific_tournament t =
      new_insertor b Templates.insert_tournament
      >>= Insertor.tournament_id b t.game.id
      >>= Insertor.buy_in b to_text t.buy_in
      >>= statement

  -- insertSpecificGame of a cash game
  unfoldable pub insert_specific_cash_game : CashGame D T → Result Bytes
  insert_specific_cash_game cg =
      new_insertor b Templates.insert_cashgame
      >>= Insertor.cash_game_id b cg.game.id
      >>= Insertor.small_blind b to_text cg.small_blind
      >>= Insertor.big_blind b to_text cg.big_blind
      >>= statement

  -- the lambda of saveActions
  unfoldable pub insert_action : Action D → SqlInsertor → Result SqlInsertor
  insert_action a query =
      Insertor.street b a.street query
      >>= Insertor.hand_id b a.hand_id
      >>= Insertor.player_name b a.player_name
      >>= Insertor.action_type b a.kind
      >>= Insertor.action_index b a.index
      >>= Insertor.bet_amount b to_text a.bet_amount
      >>= λ s. ok (new_insert s)

  unfoldable pub insert_actions : List (Action D) → SqlInsertor → Result SqlInsertor
  unfolding insert_action
  insert_actions [] query = ok query
  insert_actions (a ∷ actions) query = insert_action a query >>= insert_actions actions

  -- saveActions
  unfoldable pub save_actions : List (Action D) → Result (List Bytes)
  unfolding insert_actions
  save_actions [] = ok []
  save_actions (a ∷ actions) = do
    query ← new_insertor b Templates.insert_action
    filled ← insert_actions (a ∷ actions) query
    sql ← statement filled
    ok (sql ∷ [])

  -- the setter of a card of the hand
  abbrev card_with :
      (Card → SqlInsertor → Result SqlInsertor) → List Card → ℕ → SqlInsertor → Result SqlInsertor
  card_with setter cards i s = card_at cards i >>= λ c. setter c s

  -- insertHand
  unfoldable pub insert_hand : SqlInsertor → Hand D T → Result SqlInsertor
  insert_hand hand_insert hand =
      Insertor.hand_id b hand.id hand_insert
      >>= Insertor.site_name b hand.site_name
      >>= Insertor.table_name b hand.table_name
      >>= Insertor.button_seat b hand.button_seat
      >>= Insertor.max_seats b hand.max_seats
      >>= Insertor.level b hand.level
      >>= Insertor.ante b hand.ante
      >>= Insertor.start_date b (to_sqlite_date hand.date)
      >>= card_with (Insertor.hero_card1 b) hand.hero_cards 0
      >>= card_with (Insertor.hero_card2 b) hand.hero_cards 1
      >>= card_with (Insertor.hero_card3 b) hand.hero_cards 2
      >>= card_with (Insertor.hero_card4 b) hand.hero_cards 3
      >>= card_with (Insertor.hero_card5 b) hand.hero_cards 4
      >>= card_with (Insertor.board_card1 b) hand.board_cards 0
      >>= card_with (Insertor.board_card2 b) hand.board_cards 1
      >>= card_with (Insertor.board_card3 b) hand.board_cards 2
      >>= card_with (Insertor.board_card4 b) hand.board_cards 3
      >>= card_with (Insertor.board_card5 b) hand.board_cards 4
      >>= λ s. ok (new_insert s)

  -- the loop of saveHands over the seats of a hand, from an index on
  unfoldable pub insert_seats : Hand D T → ℕ → List Bytes → SqlInsertor → Result SqlInsertor
  insert_seats hand index [] query = ok query
  insert_seats hand index (player_name ∷ seats) query = elim (is_empty player_name) [
    | true ↦ insert_seats hand (index + 1) seats query
    | false ↦ Insertor.hand_id b hand.id query >>= Insertor.player_name b player_name >>= λ s.
        Seat.from_array_index b index >>= λ seat.
        Insertor.player_seat b seat s
        >>= Insertor.is_winner b (is_winner hand player_name)
        >>= λ filled. insert_seats hand (index + 1) seats (new_insert filled)
  ]

  -- the three insertors of saveHands
  abbrev pub Insertors : Type 0
  Insertors = SqlInsertor × SqlInsertor × SqlInsertor

  -- one hand in saveHands
  unfoldable pub insert_hand_rows : Bytes → Hand D T → Insertors → Result Insertors
  unfolding insert_hand insert_seats all_empty
  insert_hand_rows game_id hand (hand_insert, hand_player_insert, game_hand_insert) = do
    hand_insert' ← insert_hand hand_insert hand
    require b (not (all_empty hand.seats))
    hand_player_insert' ← insert_seats hand 0 hand.seats hand_player_insert
    with_game ← Insertor.game_id b game_id game_hand_insert
    with_hand ← Insertor.hand_id b hand.id with_game
    ok (hand_insert', hand_player_insert', new_insert with_hand)

  unfoldable pub insert_hands : Bytes → List (Hand D T) → Insertors → Result Insertors
  unfolding insert_hand_rows
  insert_hands game_id [] inserts = ok inserts
  insert_hands game_id (hand ∷ hands) inserts =
      insert_hand_rows game_id hand inserts >>= insert_hands game_id hands

  -- saveHands
  unfoldable pub save_hands : Bytes → List (Hand D T) → Result (List Bytes)
  unfolding insert_hands game_hand_template
  save_hands game_id [] = ok []
  save_hands game_id (hand ∷ hands) = do
    hand_insert ← new_insertor b Templates.insert_hand
    hand_player_insert ← new_insertor b Templates.insert_hand_player
    template ← game_hand_template hand.game_type
    game_hand_insert ← new_insertor b template
    filled ← insert_hands game_id (hand ∷ hands) (hand_insert, hand_player_insert, game_hand_insert)
    hands_sql ← statement filled.0
    players_sql ← statement filled.1
    game_sql ← statement filled.2
    ok (hands_sql ∷ players_sql ∷ game_sql ∷ [])

  -- the loop of saveGame over the actions of the hands
  unfoldable pub save_all_actions : List (Hand D T) → Result (List Bytes)
  unfolding save_actions
  save_all_actions [] = ok []
  save_all_actions (hand ∷ hands) = do
    first ← save_actions hand.actions
    rest ← save_all_actions hands
    ok (first ++ rest)

  -- saveGame, by the statement of insertSpecificGame
  unfoldable pub save_game : Game D T → Result Bytes → Result (List Bytes)
  unfolding insert_game save_hands save_all_actions
  save_game game specific = do
    game_sql ← insert_game game
    specific_sql ← specific
    hands_sql ← save_hands game.id (view_hands game)
    actions_sql ← save_all_actions (view_hands game)
    ok ((game_sql ∷ specific_sql ∷ []) ++ (hands_sql ++ actions_sql))

  -- Database::save of a cash game and of a tournament
  unfoldable pub save_cash_game : CashGame D T → Result (List Bytes)
  unfolding save_game insert_specific_cash_game
  save_cash_game cg = save_game cg.game (insert_specific_cash_game cg)

  unfoldable pub save_tournament : Tournament D T → Result (List Bytes)
  unfolding save_game insert_specific_tournament
  save_tournament t = save_game t.game (insert_specific_tournament t)
