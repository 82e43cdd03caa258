-- ===== src/History/HandBuilder/Actions.antt =====
-- history/WinamaxHandBuilder.cpp: the actions of the streets and the winners of a hand.
pub mod Winners
pub mod Truncated
pub mod Lines
use phud.Prelude.{
  ℕ, zero, suc, ◌+◌, Bytes, codes, length, List, [], ◌∷◌, ◌++◌, Option, none, some, if◌then◌else◌,
  not, ◌||◌, ◌&&◌, Bool, false, true, is_empty, replicate, take,
}
use phud.Prelude.Result.{Result, ok, err, ◌>>=◌, ◌>>◌, out_of_fuel, Build}
use phud.Prelude.Words.{add64}
use phud.Strings.Floats.{Doubles}
use phud.Strings.{to_amount}
use phud.Text.{starts_with, ends_with, find, find?, rfind, substr, contains}
use phud.TextFile.{TextFile, skip, contains_one_of}
use phud.Entities.Action.{
  Action, ActionType, no_action, fold, check, call, bet, raise, Street, no_street, preflop, flop,
  turn, river, new_action,
}
use phud.Entities.Hand.{acted}
use phud.History.Fields.{substr_from}

-- the street of a line in parseStreet
unfoldable pub street_of : Bytes → Street
street_of line =
    if starts_with line (codes "*** PRE-FLOP ***")
    then preflop
    else if starts_with line (codes "*** FLOP ***")
    then flop
    else if starts_with line (codes "*** TURN ***")
    then turn
    else if starts_with line (codes "*** RIVER ***") || starts_with line (codes "*** SHOW DOWN ***")
    then river
    else no_street

-- parseStreet
unfoldable pub parse_street : TextFile → TextFile × Street
unfolding street_of
parse_street tf = (skip tf, street_of tf.line)

abbrev pub action_tokens : List Bytes
action_tokens =
    codes " folds"
    ∷ codes " checks"
    ∷ codes " bets "
    ∷ codes " calls "
    ∷ codes " raises "
    ∷ codes " shows "
    ∷ []

pub record ActionParams (D : Type 0) : Type 0 where
  pub player_name : Bytes
  pub kind : ActionType
  pub bet_amount : D

-- the loop of parseWinners over the winners that are left
unfoldable pub winners_loop : ℕ → TextFile → TextFile × List Bytes
winners_loop zero tf = (tf, [])
winners_loop (suc n) tf =
    let rest = winners_loop n (skip tf) in
    elim (find? tf.line (codes " collected ")) [
      | none ↦ (tf, replicate (suc n) [])
      | some place ↦ (rest.0, take place tf.line ∷ rest.1)
    ]

-- parseWinners
unfoldable pub parse_winners : TextFile → TextFile × List Bytes
unfolding winners_loop
parse_winners tf = winners_loop 10 tf

module _ (fp : Doubles) (b : Build) where
  open fp use {Double, zero_double}

  -- the player, the kind and the amount of a line with a bet
  unfoldable pub with_bet : Bytes → Bytes → ActionType → Result (Option (ActionParams Double))
  with_bet line token kind = do
    player_name ← substr line 0 (find line token)
    amount ← substr_from line (add64 (rfind line (codes " ")) 1)
    ok (some (record { player_name = player_name; kind = kind; bet_amount = to_amount fp amount }))

  unfoldable pub without_bet : Bytes → ActionType → Result (Option (ActionParams Double))
  without_bet line kind = do
    player_name ← substr line 0 (rfind line (codes " "))
    ok (some (record { player_name = player_name; kind = kind; bet_amount = zero_double }))

  -- parseLineForActionParams
  unfoldable pub parse_line_for_action_params : Bytes → Result (Option (ActionParams Double))
  unfolding with_bet without_bet
  parse_line_for_action_params line =
      if ends_with line (codes " folds")
      then without_bet line fold
      else if ends_with line (codes " checks")
      then without_bet line check
      else if contains line (codes " calls ")
      then with_bet line (codes " calls ") call
      else if contains line (codes " bets ")
      then with_bet line (codes " bets ") bet
      else if contains line (codes " raises ")
      then with_bet line (codes " raises ") raise
      else ok none

  -- actions.push_back of the action of a line, if it has one
  unfoldable pub push_action :
      Street
      → Bytes
      → List (Action Double)
      → Option (ActionParams Double)
      → Result (List (Action Double))
  push_action st hand_id actions none = ok actions
  push_action st hand_id actions (some p) = do
    a ← new_action fp b (record {
      hand_id = hand_id;
      player_name = p.player_name;
      index = length actions;
      bet_amount = p.bet_amount;
      street = st;
      kind = p.kind;
    })
    ok (actions ++ (a ∷ []))

  unfoldable pub actions_loop :
      ℕ
      → TextFile
      → Street
      → Bytes
      → List (Action Double)
      → Result (TextFile × List (Action Double))
  unfolding parse_line_for_action_params push_action
  actions_loop zero tf st hand_id actions = err out_of_fuel
  actions_loop (suc fuel) tf st hand_id actions = elim (contains_one_of tf action_tokens) [
    | false ↦ ok (tf, actions)
    | true ↦ do
      params ← parse_line_for_action_params tf.line
      actions' ← push_action st hand_id actions params
      actions_loop fuel (skip tf) st hand_id actions'
  ]

  -- parseActions
  unfoldable pub parse_actions :
      ℕ → TextFile → Street → Bytes → Result (TextFile × List (Action Double))
  unfolding actions_loop
  parse_actions fuel tf st hand_id = actions_loop fuel tf st hand_id []

  -- the lambda of createActionForWinnersWithoutAction, on the actions it has made so far
  unfoldable pub winner_action :
      List (Action Double)
      → Street
      → Bytes
      → Bytes
      → List (Action Double)
      → Result (List (Action Double))
  winner_action actions st hand_id winner ret =
      if not (is_empty winner) && not (acted actions winner)
      then (new_action fp b (record {
        hand_id = hand_id;
        player_name = winner;
        index = length actions + length ret;
        bet_amount = zero_double;
        street = st;
        kind = no_action;
      })
          >>= λ a. ok (ret ++ (a ∷ [])))
      else ok ret

  -- std::ranges::for_each over the winners
  unfoldable pub winner_actions :
      List (Action Double)
      → Street
      → Bytes
      → List Bytes
      → List (Action Double)
      → Result (List (Action Double))
  unfolding winner_action
  winner_actions actions st hand_id [] ret = ok ret
  winner_actions actions st hand_id (winner ∷ winners) ret = do
    ret' ← winner_action actions st hand_id winner ret
    winner_actions actions st hand_id winners ret'

  -- createActionForWinnersWithoutAction
  unfoldable pub create_action_for_winners :
      List Bytes → List (Action Double) → Street → Bytes → Result (List (Action Double))
  unfolding winner_actions
  create_action_for_winners winners actions st hand_id =
      winner_actions actions st hand_id winners []

  -- the loop of parseActionsAndWinners, with its last street
  unfoldable pub streets_loop :
      ℕ
      → TextFile
      → Bytes
      → Street
      → List (Action Double)
      → Result (TextFile × Street × List (Action Double))
  unfolding parse_street parse_actions
  streets_loop zero tf hand_id st actions = err out_of_fuel
  streets_loop (suc fuel) tf hand_id st actions = elim (contains tf.line (codes " collected ")) [
    | true ↦ ok (tf, st, actions)
    | false ↦
        let s = parse_street tf in
        parse_actions fuel s.0 s.1 hand_id >>= λ r.
        streets_loop fuel r.0 hand_id s.1 (actions ++ r.1)
  ]

  -- parseActionsAndWinners
  unfoldable pub parse_actions_and_winners :
      ℕ → TextFile → Bytes → Result (TextFile × List (Action Double) × List Bytes)
  unfolding streets_loop parse_winners create_action_for_winners
  parse_actions_and_winners fuel tf hand_id = do
    (tf', st, actions) ← streets_loop fuel tf hand_id no_street []
    let w = parse_winners tf'
    more ← create_action_for_winners w.1 actions st hand_id
    ok (w.0, actions ++ more, w.1)
