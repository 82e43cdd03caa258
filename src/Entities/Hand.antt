-- ===== src/Entities/Hand.antt =====
-- entities/Hand.hpp and Hand.cpp: one hand of a game, with its seats, winners, cards and actions.
use phud.Prelude.{List, [], ◌∷◌, Bytes, Bool, true, false, not, ◌||◌, is_empty, bytes_eq}
use phud.Prelude.Result.{Result, ok, ◌>>◌, Build, require}
use phud.Prelude.Words.{ℤ, pos, negsuc}
use phud.Entities.Card.{Card}
use phud.Entities.Seat.{Seat}
use phud.Entities.Action.{Action}

-- entities/GameType.hpp
pub data GameType : Type 0 where
  no_game_type cash_game tournament : GameType

-- std::array members are lists: ten seats, ten winners, five cards each.
pub record Hand (D T : Type 0) : Type 0 where
  pub seats : List Bytes
  pub winners : List Bytes
  pub id : Bytes
  pub site_name : Bytes
  pub table_name : Bytes
  pub actions : List (Action D)
  pub date : T
  pub ante : ℤ
  pub level : ℤ
  pub hero_cards : List Card
  pub board_cards : List Card
  pub game_type : GameType
  pub button_seat : Seat
  pub max_seats : Seat

abbrev pub non_negative : ℤ → Bool
non_negative (pos n) = true
non_negative (negsuc n) = false

-- std::ranges::find_if over the actions
unfoldable pub acted : {D : Type 0} → List (Action D) → Bytes → Bool
acted [] name = false
acted (a ∷ actions) name = bytes_eq name a.player_name || acted actions name

-- std::ranges::find over the winners
unfoldable pub is_one_of : List Bytes → Bytes → Bool
is_one_of [] name = false
is_one_of (w ∷ winners) name = bytes_eq w name || is_one_of winners name

module _ {D T : Type 0} where
  -- Hand::Hand
  unfoldable pub new_hand : Build → Hand D T → Result (Hand D T)
  new_hand b h = do
    require b (not (is_empty h.id))
    require b (not (is_empty h.site_name))
    require b (not (is_empty h.table_name))
    require b (non_negative h.ante)
    ok h

  -- Hand::isPlayerInvolved
  unfoldable pub is_player_involved : Hand D T → Bytes → Bool
  unfolding acted
  is_player_involved h name = acted h.actions name

  -- Hand::isWinner. The name is handed on by its data(), so up to its first 0 byte or the end of the
  -- text that it is part of; the model has names that are whole texts without one.
  unfoldable pub is_winner : Hand D T → Bytes → Bool
  unfolding is_one_of
  is_winner h name = is_one_of h.winners name
