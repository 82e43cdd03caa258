-- ===== src/Tests/Entities.antt =====
-- The entities at concrete values.
use phud.Prelude.{ℕ, ◌≡◌, refl, [], ◌∷◌, Bytes, codes, true, false}
use phud.Prelude.Result.{ok, ◌>>=◌, debug}
use phud.Prelude.Words.{pos}
use phud.Entities.Seat.{
  seat_three, seat_ten, to_int, to_array_index, seat_to_string, seat_from_string, from_int,
  from_array_index, seat_round_trips,
}
use phud.Entities.Action.{Action, call, preflop}
use phud.Entities.Player.{Player}
use phud.Entities.Hand.{Hand, cash_game}
use phud.Entities.Game.{Game, holdem, no_limit}
use phud.Entities.Site.{Site, merge, view_player}
use phud.Entities.Site.Merging.{AreFiled, or_else, merge-players}

seat_round_trips_example :
    ((seat_to_string seat_three >>= seat_from_string debug) ≡ ok seat_three)
    × (from_int debug (pos (to_int seat_three)) ≡ ok seat_three)
    × (from_array_index debug (to_array_index seat_three) ≡ ok seat_three)
seat_round_trips_example = seat_round_trips debug seat_three (λ e. cc)

abbrev a_call : Action ℕ
a_call = record {
  hand_id = codes "1";
  player_name = codes "b";
  index = 0;
  bet_amount = 20;
  street = preflop;
  kind = call;
}

abbrev a_hand : Hand ℕ Bytes
a_hand = record {
  seats = codes "a" ∷ codes "b" ∷ [];
  winners = codes "b" ∷ [];
  id = codes "1";
  site_name = codes "Winamax";
  table_name = codes "t";
  actions = a_call ∷ [];
  date = [];
  ante = pos 0;
  level = pos 0;
  hero_cards = [];
  board_cards = [];
  game_type = cash_game;
  button_seat = seat_three;
  max_seats = seat_ten;
}

abbrev a_game : Game ℕ Bytes
a_game = record {
  id = codes "g";
  site = codes "Winamax";
  name = codes "n";
  hands = a_hand ∷ [];
  start_date = [];
  variant = holdem;
  limit_type = no_limit;
  nb_max_seats = seat_ten;
  is_real_money = true;
}

abbrev player : Bytes → Player
player comments = record {
  name = codes "a";
  site = codes "w";
  comments = comments;
  is_hero = false;
}

abbrev site : Bytes → Site ℕ Bytes
site comments = record {
  name = codes "w";
  players = (codes "a", player comments) ∷ [];
  cash_games = [];
  tournaments = [];
}

merge-players_example :
    (t : Site ℕ Bytes) × (merge debug (site (codes "x")) (site (codes "y")) ≡ ok t)
    × ((name : Bytes)
        → view_player t name
          ≡ or_else (view_player (site (codes "x")) name) (view_player (site (codes "y")) name))
    × (t.cash_games ≡ [])
    × (t.tournaments ≡ [])
    × AreFiled t.name t.players
merge-players_example =
    merge-players debug (site (codes "x")) (site (codes "y")) refl ((refl, refl), tt)
      ((refl, refl), tt)
