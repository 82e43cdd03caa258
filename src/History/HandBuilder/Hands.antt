-- ===== src/History/HandBuilder/Hands.antt =====
-- The hands that the builders of history/WinamaxHandBuilder.cpp return.
use phud.Prelude.{ℕ, ◌≡◌, ◌≢◌, [], Bytes, true, arith}
use phud.Prelude.Result.{ok, Build, debug, release, Result-cases}
use phud.Prelude.{List, inl, inr}
use phud.Entities.Action.{Action, no_street}
use phud.History.HandBuilder.Table.{parse_board_cards}
use phud.Prelude.Words.{ℤ, pos}
use phud.Strings.Floats.{Doubles}
use phud.System.Times.{Times}
use phud.TextFile.{TextFile}
use phud.Entities.Hand.{
  Hand, GameType, cash_game, tournament, new_hand, is_winner, is_player_involved, is_one_of, acted,
}
use phud.Threads.PlayerCache.{PlayerCache}
use phud.History.HandBuilder.{
  get_hand, HandTail, parse_head, parse_tail, hand_of, GameData, new_game_data, build_cashgame_hand,
  build_tournament_hand, build_cashgame_hand_and_game_data, build_tournament_hand_and_game_data,
}
use phud.History.HandBuilder.PokerLine.{
  StartOfLine, SmallBlindBigBlindDateHandId, LevelDateHandId, BuyInLevelDateHandId,
  parse_start_of_line, level_of, level_date_hand_id, buy_in_level_date_hand_id, blinds_date_hand_id,
}
use phud.History.HandBuilder.Actions.{
  parse_actions_and_winners, parse_winners, streets_loop, create_action_for_winners,
}
use phud.History.HandBuilder.Actions.Winners.{create_action_for_winners-acted}

ok-inj {ℓ} : {A : Type ℓ} {a b : A} → ok a ≡ ok b → a ≡ b
ok-inj h = cc

new_hand_self : {D T : Type 0} → (b : Build) (h h' : Hand D T) → new_hand b h ≡ ok h' → h' ≡ h
unfolding new_hand
new_hand_self debug h h' e = ground arith
new_hand_self release h h' e = ground arith

module _ (fp : Doubles) (ts : Times) (b : Build) (fuel : ℕ) where
  open fp use {Double}
  open ts use {Time}

  parse_actions_and_winners-acted :
      (tf tf' : TextFile) (id n : Bytes) (actions : List (Action Double)) (winners : List Bytes)
      → parse_actions_and_winners fp b fuel tf id ≡ ok (tf', actions, winners)
      → n ≢ []
      → is_one_of winners n ≡ true
      → acted actions n ≡ true
  unfolding parse_actions_and_winners
  parse_actions_and_winners-acted tf tf' id n actions winners h k t =
      elim (Result-cases (streets_loop fp b fuel tf id no_street [])) [
        | inr (e, p) ↦ ground (arith, p)
        | inl ((tf1, st, done), p) ↦
            elim (Result-cases (create_action_for_winners fp b (parse_winners tf1).1 done st id)) [
              | inr (e, q) ↦ ground (arith, p, q)
              | inl (more, q) ↦ ground (
                arith,
                p,
                q,
                create_action_for_winners-acted fp b done more st id n (parse_winners tf1).1 q k,
              )
            ]
      ]

  parse_tail-acted :
      (tf : TextFile) (id n : Bytes) (t : HandTail Double)
      → parse_tail fp ts b fuel tf id ≡ ok t
      → n ≢ []
      → is_one_of t.winners n ≡ true
      → acted t.actions n ≡ true
  unfolding parse_tail
  parse_tail-acted tf id n t h k w =
      elim (Result-cases (parse_actions_and_winners fp b fuel tf id)) [
        | inr (e, p) ↦ ground (arith, p)
        | inl ((tf1, actions, winners), p) ↦ elim (Result-cases (parse_board_cards fuel tf1)) [
          | inr (e, q) ↦ ground (arith, p, q)
          | inl ((tf2, cards), q) ↦
              ground (arith, p, q, parse_actions_and_winners-acted tf tf1 id n actions winners p k)
        ]
      ]

  -- Every winner with a name has an action in the hand that getHand returns, whatever the lines of
  -- the file are, in either build.
  pub get_hand-acted :
      (g : GameType) (tf tf' : TextFile) (pc pc' : PlayerCache) (l : ℤ) (d : Time) (id n : Bytes)
      (h : Hand Double Time)
      → get_hand fp ts b fuel g tf pc l d id ≡ ok (tf', pc', h)
      → n ≢ []
      → is_winner h n ≡ true
      → is_player_involved h n ≡ true
  unfolding get_hand is_winner is_player_involved hand_of
  get_hand-acted g tf tf' pc pc' l d id n h e k w =
      elim (Result-cases (parse_head fp ts b fuel tf pc)) [
        | inr (x, p) ↦ ground (arith, p)
        | inl (head, p) ↦ elim (Result-cases (parse_tail fp ts b fuel head.reader id)) [
          | inr (x, q) ↦ ground (arith, p, q)
          | inl (tail, q) ↦
              elim (Result-cases (new_hand b (hand_of fp ts b fuel g l d id head tail))) [
                | inr (x, r) ↦ ground (arith, p, q, r)
                | inl (hand, r) ↦ ground (
                  arith,
                  p,
                  q,
                  r,
                  new_hand_self b _ hand r,
                  parse_tail-acted head.reader id n tail q k,
                )
              ]
        ]
      ]

  blinds-start :
      (line : Bytes) (s : SmallBlindBigBlindDateHandId Double Time)
      → blinds_date_hand_id ts fp line ≡ ok s
      → (p : StartOfLine Time) × (parse_start_of_line ts line ≡ ok p)
        × (p.hand_start_date ≡ s.date)
        × (p.hand_id ≡ s.hand_id)
  unfolding blinds_date_hand_id
  blinds-start line s h = elim (Result-cases (parse_start_of_line ts line)) [
    | inr (x, p) ↦ ground (arith, p)
    | inl (start, p) ↦ (start, p, ground (arith, p), ground (arith, p))
  ]

  level-start :
      (line : Bytes) (s : BuyInLevelDateHandId Double Time)
      → buy_in_level_date_hand_id ts fp line ≡ ok s
      → (l : LevelDateHandId Time) × (level_date_hand_id ts line ≡ ok l)
        × (l.level ≡ s.level)
        × (l.date ≡ s.date)
        × (l.hand_id ≡ s.hand_id)
  unfolding buy_in_level_date_hand_id level_date_hand_id
  level-start line s h = elim (Result-cases (parse_start_of_line ts line)) [
    | inr (x, p) ↦ ground (arith, p)
    | inl (start, p) ↦ elim (Result-cases (level_of ts line start.hand_id_pos)) [
      | inr (x, q) ↦ ground (arith, p, q)
      | inl (level, q) ↦ (
        record { level = level; date = start.hand_start_date; hand_id = start.hand_id },
        ground (arith, p, q),
        ground (arith, p, q),
        ground (arith, p, q),
        ground (arith, p, q),
      )
    ]
  ]

  -- Where buildCashgameHandAndGameData succeeds, buildCashgameHand returns the same hand and leaves
  -- the same reader and cache, and the game data have the seats and the date of that hand.
  pub build_cashgame_hand-and_game_data :
      (tf tf' : TextFile) (pc pc' : PlayerCache) (h : Hand Double Time) (gd : GameData Double Time)
      → build_cashgame_hand_and_game_data fp ts b fuel tf pc ≡ ok (tf', pc', (h, gd))
      → (build_cashgame_hand fp ts b fuel tf pc ≡ ok (tf', pc', h))
        × (gd.nb_max_seats ≡ h.max_seats)
        × (gd.start_date ≡ h.date)
  unfolding build_cashgame_hand_and_game_data build_cashgame_hand new_game_data
  build_cashgame_hand-and_game_data tf tf' pc pc' h gd e =
      elim (Result-cases (blinds_date_hand_id ts fp tf.line)) [
        | inr (x, p) ↦ ground (arith, p)
        | inl (s, p) ↦
            let (start, q, d, i) = blinds-start tf.line s p in
            elim (Result-cases (get_hand fp ts b fuel cash_game tf pc (pos 0) s.date s.hand_id)) [
              | inr (x, r) ↦ ground (arith, p, r)
              | inl ((tf1, pc1, h1), r) ↦ (
                rw (q, d, i, r) (ground (arith, p, r)),
                ground (arith, p, r),
                ground (arith, p, r),
              )
            ]
      ]

  -- Where buildTournamentHandAndGameData succeeds, buildTournamentHand returns the same hand and
  -- leaves the same reader and cache, and the game data have the seats and the date of that hand.
  pub build_tournament_hand-and_game_data :
      (tf tf' : TextFile) (pc pc' : PlayerCache) (h : Hand Double Time) (gd : GameData Double Time)
      → build_tournament_hand_and_game_data fp ts b fuel tf pc ≡ ok (tf', pc', (h, gd))
      → (build_tournament_hand fp ts b fuel tf pc ≡ ok (tf', pc', h))
        × (gd.nb_max_seats ≡ h.max_seats)
        × (gd.start_date ≡ h.date)
  unfolding build_tournament_hand_and_game_data build_tournament_hand new_game_data
  build_tournament_hand-and_game_data tf tf' pc pc' h gd e =
      elim (Result-cases (buy_in_level_date_hand_id ts fp tf.line)) [
        | inr (x, p) ↦ ground (arith, p)
        | inl (s, p) ↦
            let (l, q, n, d, i) = level-start tf.line s p in
            elim (Result-cases (get_hand fp ts b fuel tournament tf pc s.level s.date s.hand_id)) [
              | inr (x, r) ↦ ground (arith, p, r)
              | inl ((tf1, pc1, h1), r) ↦ (
                rw (q, n, d, i, r) (ground (arith, p, r)),
                ground (arith, p, r),
                ground (arith, p, r),
              )
            ]
      ]
