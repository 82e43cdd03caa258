-- ===== src/Statistics/Player.antt =====
-- statistics/PlayerStatistics.hpp and PlayerStatistics.cpp: the figures of one player.
use phud.Prelude.{Bytes, Bool}
use phud.Prelude.Words.{ℤ}
use phud.Strings.Floats.{Doubles}

pub record PlayerStatistics (D : Type 0) : Type 0 where
  pub player_name : Bytes
  pub site_name : Bytes
  pub voluntary_put_money_in_pot : D
  pub preflop_raise : D
  pub nb_hands : ℤ
  pub is_hero : Bool
  pub aggression_factor : D
  pub limp_or_call_pre_flop_raise : D
  pub fold_to_pre_flop_raise : D
  pub pre_flop_three_bet : D
  pub fold_to_pre_flop_three_bet : D
  pub call_pre_flop_three_bet : D
  pub went_to_show_down : D
  pub flop_continuation_bet : D
  pub fold_to_flop_continuation_bet : D
  pub call_flop_continuation_bet : D
  pub raise_after_flop_continuation_bet : D
  pub fold_to_raise_after_flop_continuation_bet : D
  pub turn_continuation_bet : D
  pub fold_to_turn_continuation_bet : D
  pub call_turn_continuation_bet : D
  pub raise_after_turn_continuation_bet : D
  pub fold_to_raise_after_turn_continuation_bet : D
  pub river_continuation_bet : D
  pub fold_to_river_continuation_bet : D
  pub call_river_continuation_bet : D
  pub raise_after_river_continuation_bet : D
  pub fold_to_raise_after_river_continuation_bet : D
  pub donk_bet : D
  pub fold_to_donk_bet : D
  pub call_donk_bet : D
  pub raise_after_donk_bet : D
  pub fold_to_raise_after_donk_bet : D
  pub flop_check_raise : D
  pub call_flop_check_raise : D
  pub fold_to_flop_check_raise : D

module _ (fp : Doubles) where
  open fp use {Double, zero_double}

  -- PlayerStatistics::PlayerStatistics
  unfoldable pub new_player_statistics :
      Bytes → Bytes → Bool → ℤ → Double → Double → PlayerStatistics Double
  new_player_statistics player_name site_name is_hero nb_hands vpip pfr = record {
    player_name = player_name;
    site_name = site_name;
    voluntary_put_money_in_pot = vpip;
    preflop_raise = pfr;
    nb_hands = nb_hands;
    is_hero = is_hero;
    aggression_factor = zero_double;
    limp_or_call_pre_flop_raise = zero_double;
    fold_to_pre_flop_raise = zero_double;
    pre_flop_three_bet = zero_double;
    fold_to_pre_flop_three_bet = zero_double;
    call_pre_flop_three_bet = zero_double;
    went_to_show_down = zero_double;
    flop_continuation_bet = zero_double;
    fold_to_flop_continuation_bet = zero_double;
    call_flop_continuation_bet = zero_double;
    raise_after_flop_continuation_bet = zero_double;
    fold_to_raise_after_flop_continuation_bet = zero_double;
    turn_continuation_bet = zero_double;
    fold_to_turn_continuation_bet = zero_double;
    call_turn_continuation_bet = zero_double;
    raise_after_turn_continuation_bet = zero_double;
    fold_to_raise_after_turn_continuation_bet = zero_double;
    river_continuation_bet = zero_double;
    fold_to_river_continuation_bet = zero_double;
    call_river_continuation_bet = zero_double;
    raise_after_river_continuation_bet = zero_double;
    fold_to_raise_after_river_continuation_bet = zero_double;
    donk_bet = zero_double;
    fold_to_donk_bet = zero_double;
    call_donk_bet = zero_double;
    raise_after_donk_bet = zero_double;
    fold_to_raise_after_donk_bet = zero_double;
    flop_check_raise = zero_double;
    call_flop_check_raise = zero_double;
    fold_to_flop_check_raise = zero_double;
  }
