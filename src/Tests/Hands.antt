-- ===== src/Tests/Hands.antt =====
-- A whole hand from the text of a file.
use phud.Prelude.{ℕ, ◌≡◌, refl, [], ◌∷◌, ◌++◌, Bytes, codes, true, false, Bool, replicate}
use phud.Prelude.Result.{ok, debug}
use phud.Prelude.Words.{pos}
use phud.Enums.{to_string, from_string, is_valid}
use phud.Text.{find?, rfind?, find, find_from, rfind, substr, contains}
use phud.TextFile.{
  TextFile, skip, next, getline, extract, count_line, open_file, line_of, behind_line, seek,
  contains_one_of, contains_exact, exact_at,
}
use phud.Strings.{
  trim, drop_spaces, is_space, scan, size_t_of, to_size_t, to_int, int_of, sanitize, replace_char,
  to_amount, to_double, double_of, to_buy_in, buy_in_loop, kept, process_token,
}
use phud.System.Times.{new_time}
use phud.Entities.Seat.{seat_two, seat_names, to_array_index, seat_from_string}
use phud.Entities.Card.{
  ace_spade, king_diamond, two_club, three_club, no_card, card_names, to_card, short_of,
}
use phud.Entities.Action.{Action, ActionType, fold, no_action, preflop, new_action}
use phud.Entities.Player.{Player, new_player}
use phud.Entities.Site.{find_player}
use phud.Entities.Hand.{
  Hand, GameType, cash_game, tournament, is_winner, is_player_involved, is_one_of, acted, new_hand,
}
use phud.Threads.PlayerCache.{
  PlayerCache, new_cache, add_if_missing, set_hero, emplace, compare_bytes, mark_hero,
}
use phud.History.Fields.{
  set_at, substr_from, split_end, split_loop, split, parse_seat_line, seat_loop, parse_seats,
}
use phud.History.HandBuilder.PokerLine.{
  dated_line, parse_start_of_line, level_of, buy_in_level_date_hand_id, blinds_date_hand_id,
}
use phud.History.HandBuilder.Table.{
  table_line, parse_table_line, add_seats, hero_line, parse_hero_cards, ante_of, parse_ante,
  board_line, board_loop, parse_board_cards, to_cards, parse_cards,
}
use phud.History.HandBuilder.Actions.{
  street_of, parse_street, winners_loop, parse_winners, without_bet, parse_line_for_action_params,
  push_action, actions_loop, parse_actions, winner_action, winner_actions,
  create_action_for_winners, streets_loop, parse_actions_and_winners,
}
use phud.History.HandBuilder.{
  new_game_data, get_hand, parse_head, parse_tail, hand_of, build_cashgame_hand,
  build_cashgame_hand_and_game_data, build_tournament_hand_and_game_data,
}
use phud.History.HandBuilder.Hands.{get_hand-acted, build_cashgame_hand-and_game_data}
use phud.Prelude.{All}
use phud.Entities.Site.{Site, new_site, add_cash_game}
use phud.Entities.Game.{holdem, no_limit, new_cash_game, new_game, add_hand}
use phud.History.GameHistory.{
  parse_game_history, handle_game, create_game, create_loop, create_step, parse_file_stem,
  file_stem_to_variant, file_stem_to_limit, fill_from_file_name, cash_games, add_created,
}
use phud.History.GameHistory.Loop.{WinnersAct}
use phud.History.GameHistory.Winners.{parse_game_history-AllHandsAct}
use phud.Tests.Samples.{whole, nineteen}

abbrev pub lines_behind : Bytes
lines_behind =
    codes "Table: 'T' 2-max (real money) Seat #2 is the button\nSeat 1: a (9)\nSeat 2: b (9)\n"
    ++ codes "*** ANTE/BLINDS ***\na posts small blind 1\nb posts big blind 2\nDealt to b [As Kd]\n"
    ++ codes
        "*** PRE-FLOP ***\na folds\nb collected 3 from pot\n*** SUMMARY ***\nBoard: [2c 3c]\n\n"

abbrev pub first_line : Bytes
first_line =
    codes "Winamax Poker - buyIn: 5+1 level: 2 - HandId: #7-1 - (1/2) - 2014/10/31 00:45:01 UTC\n"

abbrev file : TextFile
file = skip (open_file (first_line ++ lines_behind))

abbrev read : TextFile
read = record { content = []; eof = true; fail = true; line = []; line_nb = 14 }

abbrev pub player : Bytes → Bool → Player
player name hero = record { name = name; site = codes "Winamax"; comments = []; is_hero = hero }

abbrev pub cached : PlayerCache
cached = record {
  players = (codes "a", player (codes "a") false) ∷ (codes "b", player (codes "b") true) ∷ [];
  site_name = codes "Winamax";
}

abbrev action : Bytes → ℕ → ActionType → Action ℕ
action name index kind = record {
  hand_id = codes "7-1";
  player_name = name;
  index = index;
  bet_amount = 0;
  street = preflop;
  kind = kind;
}

abbrev pub hand : GameType → ℕ → Hand ℕ Bytes
hand game_type level = record {
  seats = codes "a" ∷ codes "b" ∷ replicate 8 [];
  winners = codes "b" ∷ replicate 9 [];
  id = codes "7-1";
  site_name = codes "Winamax";
  table_name = codes "T";
  actions = action (codes "a") 0 fold ∷ action (codes "b") 1 no_action ∷ [];
  date = codes "2014/10/31 00:45:01";
  ante = pos 0;
  level = pos level;
  hero_cards = ace_spade ∷ king_diamond ∷ replicate 3 no_card;
  board_cards = two_club ∷ three_club ∷ replicate 3 no_card;
  game_type = game_type;
  button_seat = seat_two;
  max_seats = seat_two;
}

got_hand :
    get_hand whole nineteen debug 40 cash_game file
      (new_cache (codes "Winamax"))
      (pos 0)
      (codes "2014/10/31 00:45:01")
      (codes "7-1")
    ≡ ok (read, cached, hand cash_game 0)
unfolding skip next getline extract count_line open_file line_of behind_line seek contains_one_of
    contains_exact exact_at find? rfind? find find_from rfind substr contains trim drop_spaces
    is_space scan size_t_of to_size_t to_int int_of sanitize replace_char to_string from_string
    is_valid card_names to_card short_of seat_names to_array_index seat_from_string new_cache
    add_if_missing set_hero emplace compare_bytes mark_hero find_player new_player set_at
    substr_from split_end split_loop split parse_seat_line seat_loop parse_seats get_hand parse_head
    parse_tail hand_of table_line parse_table_line add_seats hero_line parse_hero_cards ante_of
    parse_ante board_line board_loop parse_board_cards to_cards parse_cards street_of parse_street
    winners_loop parse_winners without_bet parse_line_for_action_params push_action actions_loop
    parse_actions winner_action winner_actions create_action_for_winners streets_loop
    parse_actions_and_winners acted new_action new_hand
got_hand = refl

get_hand-acted_example : is_player_involved (hand cash_game 0) (codes "b") ≡ true
unfolding is_winner is_one_of
get_hand-acted_example =
    get_hand-acted whole nineteen debug 40 cash_game file read (new_cache (codes "Winamax")) cached
      (pos 0) (codes "2014/10/31 00:45:01") (codes "7-1") (codes "b") (hand cash_game 0) got_hand
      (λ e. cc) refl

abbrev pub date : Bytes
date = codes "2014/10/31 00:45:01"

cash_hand_and_data :
    build_cashgame_hand_and_game_data whole nineteen debug 40 file (new_cache (codes "Winamax"))
    ≡ ok (read, cached, (hand cash_game 0, new_game_data 1 2 0 seat_two date))
unfolding build_cashgame_hand_and_game_data blinds_date_hand_id parse_start_of_line dated_line
    new_time to_amount to_double double_of replace_char skip next getline extract count_line
    open_file line_of behind_line seek contains_one_of contains_exact exact_at find? rfind? find
    find_from rfind substr contains trim drop_spaces is_space scan size_t_of to_size_t to_int int_of
    sanitize to_string from_string is_valid card_names to_card short_of seat_names to_array_index
    seat_from_string new_cache add_if_missing set_hero emplace compare_bytes mark_hero find_player
    new_player set_at substr_from split_end split_loop split parse_seat_line seat_loop parse_seats
    get_hand parse_head parse_tail hand_of table_line parse_table_line add_seats hero_line
    parse_hero_cards ante_of parse_ante board_line board_loop parse_board_cards to_cards parse_cards
    street_of parse_street winners_loop parse_winners without_bet parse_line_for_action_params
    push_action actions_loop parse_actions winner_action winner_actions create_action_for_winners
    streets_loop parse_actions_and_winners acted new_action new_hand
cash_hand_and_data = refl

build_cashgame_hand-and_game_data_example :
    (build_cashgame_hand whole nineteen debug 40 file (new_cache (codes "Winamax"))
      ≡ ok (read, cached, hand cash_game 0))
    × (seat_two ≡ seat_two)
    × (date ≡ date)
unfolding new_game_data
build_cashgame_hand-and_game_data_example =
    build_cashgame_hand-and_game_data whole nineteen debug 40 file read
      (new_cache (codes "Winamax")) cached (hand cash_game 0) (new_game_data 1 2 0 seat_two date)
      cash_hand_and_data

tournament_hand_and_data :
    build_tournament_hand_and_game_data whole nineteen debug 40 file (new_cache (codes "Winamax"))
    ≡ ok (read, cached, (hand tournament 2, new_game_data 0 0 6 seat_two date))
unfolding build_tournament_hand_and_game_data buy_in_level_date_hand_id level_of parse_start_of_line
    dated_line new_time to_buy_in buy_in_loop kept process_token to_double double_of skip next
    getline extract count_line open_file line_of behind_line seek contains_one_of contains_exact
    exact_at find? rfind? find find_from rfind substr contains trim drop_spaces is_space scan
    size_t_of to_size_t to_int int_of sanitize replace_char to_string from_string is_valid
    card_names to_card short_of seat_names to_array_index seat_from_string new_cache add_if_missing
    set_hero emplace compare_bytes mark_hero find_player new_player set_at substr_from split_end
    split_loop split parse_seat_line seat_loop parse_seats get_hand parse_head parse_tail hand_of
    table_line parse_table_line add_seats hero_line parse_hero_cards ante_of parse_ante board_line
    board_loop parse_board_cards to_cards parse_cards street_of parse_street winners_loop
    parse_winners without_bet parse_line_for_action_params push_action actions_loop parse_actions
    winner_action winner_actions create_action_for_winners streets_loop parse_actions_and_winners
    acted new_action new_hand
tournament_hand_and_data = refl

abbrev pub stem : Bytes
stem = codes "20141116_Nice_real_holdem_no-limit"

abbrev pub game_site : Site ℕ Bytes
game_site = record {
  name = codes "Winamax";
  players = [];
  cash_games =
      record {
        game = record {
          id = stem;
          site = codes "Winamax";
          name = codes "Nice";
          hands = hand cash_game 0 ∷ [];
          start_date = date;
          variant = holdem;
          limit_type = no_limit;
          nb_max_seats = seat_two;
          is_real_money = true;
        };
        small_blind = 1;
        big_blind = 2;
      }
      ∷ [];
  tournaments = [];
}

pub game_read :
    parse_game_history whole nineteen debug 40 stem
      (first_line ++ lines_behind)
      (new_cache (codes "Winamax"))
    ≡ ok (cached, game_site)
unfolding parse_game_history handle_game create_game create_loop create_step parse_file_stem
    file_stem_to_variant file_stem_to_limit fill_from_file_name cash_games add_created new_site
    add_cash_game new_cash_game new_game add_hand new_game_data build_cashgame_hand_and_game_data
    blinds_date_hand_id parse_start_of_line dated_line new_time to_amount to_double double_of skip
    next getline extract count_line open_file line_of behind_line seek contains_one_of
    contains_exact exact_at find? rfind? find find_from rfind substr contains trim drop_spaces
    is_space scan size_t_of to_size_t to_int int_of sanitize replace_char to_string from_string
    is_valid card_names to_card short_of seat_names to_array_index seat_from_string new_cache
    add_if_missing set_hero emplace compare_bytes mark_hero find_player new_player set_at
    substr_from split_end split_loop split parse_seat_line seat_loop parse_seats get_hand parse_head
    parse_tail hand_of table_line parse_table_line add_seats hero_line parse_hero_cards ante_of
    parse_ante board_line board_loop parse_board_cards to_cards parse_cards street_of parse_street
    winners_loop parse_winners without_bet parse_line_for_action_params push_action actions_loop
    parse_actions winner_action winner_actions create_action_for_winners streets_loop
    parse_actions_and_winners acted new_action new_hand
game_read = refl

parse_game_history-AllHandsAct_example :
    All (λ g. All WinnersAct g.game.hands) game_site.cash_games
    × All (λ t. All WinnersAct t.game.hands) game_site.tournaments
parse_game_history-AllHandsAct_example =
    parse_game_history-AllHandsAct whole nineteen debug 40 stem (first_line ++ lines_behind)
      (new_cache (codes "Winamax")) cached game_site game_read
