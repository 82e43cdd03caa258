-- ===== src/Entities/Game.antt =====
-- entities/Game.hpp, Game.cpp and GameType.cpp: a game with its hands; tournaments and cash games.
use phud.Prelude.{
  ℕ, ◌≡◌, refl, List, [], ◌∷◌, ◌++◌, Bytes, codes, Bool, not, is_empty, arith, ◌==◌, if◌then◌else◌,
}
use phud.Prelude.Result.{Result, ok, ◌>>=◌, ◌>>◌, Build, require}
use phud.Enums.{to_string}
use phud.Strings.Floats.{Doubles}
use phud.Entities.Seat.{Seat, seat_unknown, to_array_index}
use phud.Entities.Hand.{Hand, GameType, no_game_type, cash_game, tournament, is_player_involved}

pub data Variant : Type 0 where
  no_variant holdem omaha omaha5 : Variant

pub data Limit : Type 0 where
  none no_limit pot_limit : Limit

abbrev pub variant_short : Variant → ℕ
variant_short no_variant = 0
variant_short holdem = 1
variant_short omaha = 2
variant_short omaha5 = 3

abbrev pub limit_short : Limit → ℕ
limit_short none = 0
limit_short no_limit = 1
limit_short pot_limit = 2

abbrev pub game_type_short : GameType → ℕ
game_type_short no_game_type = 0
game_type_short cash_game = 1
game_type_short tournament = 2

-- VARIANT_MAPPER
unfoldable pub variant_to_string : Variant → Result Bytes
unfolding to_string
variant_to_string v =
    to_string variant_short
      ((holdem, codes "holdem")
        ∷ (omaha, codes "omaha")
        ∷ (omaha5, codes "omaha5")
        ∷ (no_variant, codes "none")
        ∷ [])
      v

-- LIMIT_MAPPER
unfoldable pub limit_to_string : Limit → Result Bytes
unfolding to_string
limit_to_string l =
    to_string limit_short
      ((no_limit, codes "no-limit") ∷ (pot_limit, codes "pot-limit") ∷ (none, codes "none") ∷ []) l

-- GAMETYPE_MAPPER
unfoldable pub game_type_to_string : GameType → Result Bytes
unfolding to_string
game_type_to_string g =
    to_string game_type_short
      ((cash_game, codes "cashGame") ∷ (tournament, codes "tournament") ∷ []) g

pub record Game (D T : Type 0) : Type 0 where
  pub id : Bytes
  pub site : Bytes
  pub name : Bytes
  pub hands : List (Hand D T)
  pub start_date : T
  pub variant : Variant
  pub limit_type : Limit
  pub nb_max_seats : Seat
  pub is_real_money : Bool

module _ {D T : Type 0} where
  -- Game::Game: the hands are empty whatever they were
  unfoldable pub new_game : Build → Game D T → Result (Game D T)
  unfolding to_array_index
  new_game b g = do
    require b (not (is_empty g.id))
    require b (not (is_empty g.site))
    require b (not (is_empty g.name))
    require b (not (to_array_index g.nb_max_seats == to_array_index seat_unknown))
    ok (record g { hands = [] })

  -- Game::addHand
  unfoldable pub add_hand : Game D T → Hand D T → Game D T
  add_hand g h = record g { hands = g.hands ++ (h ∷ []) }

  -- Game::viewHands()
  unfoldable pub view_hands : Game D T → List (Hand D T)
  view_hands g = g.hands

  hands_with : Bytes → List (Hand D T) → List (Hand D T)
  hands_with player [] = []
  hands_with player (h ∷ hands) =
      if is_player_involved h player then h ∷ hands_with player hands else hands_with player hands

  -- Game::viewHands(player)
  unfoldable pub view_hands_of : Game D T → Bytes → List (Hand D T)
  unfolding hands_with
  view_hands_of g player = hands_with player g.hands

  hands_with-append :
      (player : Bytes) (xs ys : List (Hand D T))
      → hands_with player (xs ++ ys) ≡ hands_with player xs ++ hands_with player ys
  unfolding hands_with
  hands_with-append player [] ys = refl
  hands_with-append player (x ∷ xs) ys = ground (arith, hands_with-append player xs ys)

  -- A new hand is the last one that viewHands shows, and viewHands of a player shows it last if
  -- that player acts in it, and not otherwise.
  pub view_hands-add_hand :
      (g : Game D T) (h : Hand D T) (player : Bytes)
      → (view_hands (add_hand g h) ≡ view_hands g ++ (h ∷ []))
        × (view_hands_of (add_hand g h) player
            ≡ view_hands_of g player ++ (if is_player_involved h player then h ∷ [] else []))
  unfolding view_hands view_hands_of add_hand
  view_hands-add_hand g h player = (refl, hands_with-append player g.hands (h ∷ []))

pub record Tournament (D T : Type 0) : Type 0 where
  pub game : Game D T
  pub buy_in : D

pub record CashGame (D T : Type 0) : Type 0 where
  pub game : Game D T
  pub small_blind : D
  pub big_blind : D

module _ (fp : Doubles) {T : Type 0} (b : Build) where
  open fp use {Double, is_positive}

  -- Tournament::Tournament
  unfoldable pub new_tournament : Game Double T → Double → Result (Tournament Double T)
  unfolding new_game
  new_tournament g buy_in = do
    game ← new_game b g
    require b (is_positive buy_in)
    ok (record { game = game; buy_in = buy_in })

  -- CashGame::CashGame
  unfoldable pub new_cash_game : Game Double T → Double → Double → Result (CashGame Double T)
  unfolding new_game
  new_cash_game g small_blind big_blind = do
    game ← new_game b g
    require b (is_positive small_blind)
    require b (is_positive big_blind)
    ok (record { game = game; small_blind = small_blind; big_blind = big_blind })
