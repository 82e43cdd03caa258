-- ===== src/Entities/Action.antt =====
-- entities/Action.hpp and Action.cpp: an elementary move of a player, its street and its kind.
use phud.Prelude.{
  ℕ, ◌≡◌, ◌≢◌, refl, List, [], ◌∷◌, Bytes, codes, Bool, true, false, not, is_empty, arith,
}
use phud.Prelude.Result.{Result, ok, err, ◌>>◌, Build, debug, require, invalid_argument}
use phud.Enums.{to_string}
use phud.Strings.Floats.{Doubles}

pub data ActionType : Type 0 where
  no_action fold check call bet raise : ActionType

pub data Street : Type 0 where
  no_street preflop flop turn river : Street

abbrev pub type_short : ActionType → ℕ
type_short no_action = 0
type_short fold = 1
type_short check = 2
type_short call = 3
type_short bet = 4
type_short raise = 5

abbrev pub street_short : Street → ℕ
street_short no_street = 0
street_short preflop = 1
street_short flop = 2
street_short turn = 3
street_short river = 4

-- ACTION_TYPE_MAPPER
abbrev action_type_names : List (ActionType × Bytes)
action_type_names =
    (bet, codes "bet")
    ∷ (call, codes "call")
    ∷ (check, codes "check")
    ∷ (fold, codes "fold")
    ∷ (raise, codes "raise")
    ∷ (no_action, codes "none")
    ∷ []

-- STREET_MAPPER: Street::none has no name
abbrev street_names : List (Street × Bytes)
street_names =
    (preflop, codes "preflop")
    ∷ (flop, codes "flop")
    ∷ (turn, codes "turn")
    ∷ (river, codes "river")
    ∷ []

unfoldable pub action_type_to_string : ActionType → Result Bytes
unfolding to_string
action_type_to_string a = to_string type_short action_type_names a

unfoldable pub street_to_string : Street → Result Bytes
unfolding to_string
street_to_string st = to_string street_short street_names st

pub record Action (D : Type 0) : Type 0 where
  pub hand_id : Bytes
  pub player_name : Bytes
  pub index : ℕ
  pub bet_amount : D
  pub street : Street
  pub kind : ActionType

abbrev pub is_street : Street → Bool
is_street no_street = false
is_street _ = true

module _ (fp : Doubles) (b : Build) where
  open fp use {Double, is_positive}

  -- Action::Action: validation::require and its relatives
  unfoldable pub new_action : Action Double → Result (Action Double)
  new_action a = do
    require b (is_street a.street)
    require b (not (is_empty a.hand_id))
    require b (not (is_empty a.player_name))
    require b (is_positive a.bet_amount)
    ok a

-- An action that a debug build has constructed is what it was given, with a street, a hand, a
-- player, and an amount that is not below 0.
pub new_action-valid :
    (fp : Doubles) (a a' : Action fp.Double)
    → new_action fp debug a ≡ ok a'
    → (a' ≡ a)
      × (a.street ≢ no_street)
      × (a.hand_id ≢ [])
      × (a.player_name ≢ [])
      × (fp.is_positive a.bet_amount ≡ true)
unfolding new_action
new_action-valid fp a a' h = ground arith

-- toString refuses one street only, the one that no action of a debug build has.
pub street_to_string_refuses :
    (st : Street) → street_to_string st ≡ err invalid_argument → st ≡ no_street
unfolding street_to_string
street_to_string_refuses no_street h = refl
street_to_string_refuses preflop h = cc
street_to_string_refuses flop h = cc
street_to_string_refuses turn h = cc
street_to_string_refuses river h = cc
