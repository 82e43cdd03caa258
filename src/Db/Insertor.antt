-- ===== src/Db/Insertor.antt =====
-- db/SqlInsertor.hpp and SqlInsertor.cpp: the building of INSERT statements with one or more rows. The
-- setters change the insertor and return it; here they return the changed one. std::to_string of a
-- double is an argument.
pub mod Rows
pub mod Format
use phud.Prelude.{
  ℕ, zero, suc, ◌+◌, ◌/◌, ◌%◌, Bool, true, false, ltb, ◌==◌, Option, none, some, List, [], ◌∷◌,
  ◌++◌, Bytes, codes, length,
}
use phud.Prelude.Result.{
  Result, ok, err, out_of_range, undefined_behaviour, ◌>>=◌, ◌>>◌, Build, require,
}
use phud.Prelude.Words.{ℤ, pos, negsuc, add64, sub64}
use phud.Text.{find?, rfind, substr, contains, found}
use phud.Strings.{replace_at, replace_all}
use phud.Entities.Card.{Card, card_to_string}
use phud.Entities.Seat.{Seat, seat_to_string}
use phud.Entities.Action.{Street, ActionType, street_to_string, action_type_to_string}
use phud.Entities.Game.{Variant, Limit, variant_to_string, limit_to_string}

pub record SqlInsertor : Type 0 where
  pub query : Bytes
  pub value_model : Bytes
  pub values : Bytes

-- std::to_string of std::size_t and int, which have at most 20 digits
unfoldable digits : ℕ → ℕ → Bytes → Bytes
digits zero n behind = behind
digits (suc more) n behind = elim (ltb n 10) [
  | true ↦ (48 + n) ∷ behind
  | false ↦ digits more (n / 10) ((48 + n % 10) ∷ behind)
]

unfoldable pub size_to_string : ℕ → Bytes
unfolding digits
size_to_string n = digits 20 n []

unfoldable pub int_to_string : ℤ → Bytes
unfolding size_to_string
int_to_string (pos n) = size_to_string n
int_to_string (negsuc n) = 45 ∷ size_to_string (n + 1)

-- toString<bool>
abbrev pub bool_to_string : Bool → Bytes
bool_to_string true = codes "1"
bool_to_string false = codes "0"

-- std::string::back and pop_back
unfoldable pub last : Bytes → Option ℕ
last [] = none
last (c ∷ []) = some c
last (c ∷ d ∷ s) = last (d ∷ s)

unfoldable pub without_last : Bytes → Bytes
without_last [] = []
without_last (c ∷ []) = []
without_last (c ∷ d ∷ s) = c ∷ without_last (d ∷ s)

-- SqlInsertor::build: the insertor and the statement, which is its query
unfoldable pub build : SqlInsertor → Result (SqlInsertor × Bytes)
unfolding last without_last
build s = elim (last s.query) [
  | none ↦ err undefined_behaviour
  | some c ↦ elim (c == 44) [
    | true ↦ let q = without_last s.query ++ codes ";" in ok (record s { query = q }, q)
    | false ↦
        let q = s.query ++ (codes "(" ++ (s.values ++ codes ");")) in ok (record s { query = q }, q)
  ]
]

-- SqlInsertor::newInsert
unfoldable pub new_insert : SqlInsertor → SqlInsertor
new_insert s = record s {
  query = s.query ++ (codes "(" ++ (s.values ++ codes "),"));
  values = s.value_model;
}

module _ (b : Build) where
  -- isOk
  unfoldable pub is_ok : Bytes → Result Bytes
  is_ok s = do
    require b (contains s (codes "("))
    require b (contains s (codes ")"))
    require b (contains s (codes "?"))
    ok s

  -- SqlInsertor::SqlInsertor
  unfoldable pub new_insertor : Bytes → Result SqlInsertor
  unfolding is_ok
  new_insertor template = do
    checked ← is_ok template
    query ← substr checked 0 (rfind template (codes "("))
    value_model ←
        substr template (add64 (rfind template (codes "(")) 1)
          (sub64 (sub64 (rfind template (codes ")")) (rfind template (codes "("))) 1)
    require b (contains template (codes "?"))
    ok (record { query = query; value_model = value_model; values = value_model })

  -- REPLACE_IN_VALUES
  unfoldable pub replace_in_values : Bytes → Result Bytes → SqlInsertor → Result SqlInsertor
  replace_in_values place_holder value s = do
    require b (found (find? s.values place_holder))
    text ← value
    elim (find? s.values place_holder) [
      | none ↦ err out_of_range
      | some place ↦ ok (record s { values = replace_at s.values place (length place_holder) text })
    ]

  unfoldable pub site_name : Bytes → SqlInsertor → Result SqlInsertor
  unfolding replace_in_values
  site_name value s = replace_in_values (codes "?siteName") (ok value) s

  unfoldable pub is_hero : Bool → SqlInsertor → Result SqlInsertor
  unfolding replace_in_values
  is_hero value s = replace_in_values (codes "?isHero") (ok (bool_to_string value)) s

  unfoldable pub comments : Bytes → SqlInsertor → Result SqlInsertor
  unfolding replace_in_values
  comments value s = replace_in_values (codes "?comments") (ok value) s

  unfoldable pub player_seat : Seat → SqlInsertor → Result SqlInsertor
  unfolding replace_in_values
  player_seat value s = replace_in_values (codes "?playerSeat") (seat_to_string value) s

  unfoldable pub player_name : Bytes → SqlInsertor → Result SqlInsertor
  unfolding replace_in_values
  player_name value s = replace_in_values (codes "?playerName") (ok value) s

  unfoldable pub is_winner : Bool → SqlInsertor → Result SqlInsertor
  unfolding replace_in_values
  is_winner value s = replace_in_values (codes "?isWinner") (ok (bool_to_string value)) s

  unfoldable pub table_name : Bytes → SqlInsertor → Result SqlInsertor
  unfolding replace_in_values
  table_name value s = replace_in_values (codes "?tableName") (ok value) s

  unfoldable pub button_seat : Seat → SqlInsertor → Result SqlInsertor
  unfolding replace_in_values
  button_seat value s = replace_in_values (codes "?buttonSeat") (seat_to_string value) s

  unfoldable pub max_seats : Seat → SqlInsertor → Result SqlInsertor
  unfolding replace_in_values
  max_seats value s = replace_in_values (codes "?maxSeats") (seat_to_string value) s

  unfoldable pub level : ℤ → SqlInsertor → Result SqlInsertor
  unfolding replace_in_values
  level value s = replace_in_values (codes "?level") (ok (int_to_string value)) s

  unfoldable pub ante : ℤ → SqlInsertor → Result SqlInsertor
  unfolding replace_in_values
  ante value s = replace_in_values (codes "?ante") (ok (int_to_string value)) s

  unfoldable pub hero_card1 : Card → SqlInsertor → Result SqlInsertor
  unfolding replace_in_values
  hero_card1 value s = replace_in_values (codes "?heroCard1") (card_to_string value) s

  unfoldable pub hero_card2 : Card → SqlInsertor → Result SqlInsertor
  unfolding replace_in_values
  hero_card2 value s = replace_in_values (codes "?heroCard2") (card_to_string value) s

  unfoldable pub hero_card3 : Card → SqlInsertor → Result SqlInsertor
  unfolding replace_in_values
  hero_card3 value s = replace_in_values (codes "?heroCard3") (card_to_string value) s

  unfoldable pub hero_card4 : Card → SqlInsertor → Result SqlInsertor
  unfolding replace_in_values
  hero_card4 value s = replace_in_values (codes "?heroCard4") (card_to_string value) s

  unfoldable pub hero_card5 : Card → SqlInsertor → Result SqlInsertor
  unfolding replace_in_values
  hero_card5 value s = replace_in_values (codes "?heroCard5") (card_to_string value) s

  unfoldable pub board_card1 : Card → SqlInsertor → Result SqlInsertor
  unfolding replace_in_values
  board_card1 value s = replace_in_values (codes "?boardCard1") (card_to_string value) s

  unfoldable pub board_card2 : Card → SqlInsertor → Result SqlInsertor
  unfolding replace_in_values
  board_card2 value s = replace_in_values (codes "?boardCard2") (card_to_string value) s

  unfoldable pub board_card3 : Card → SqlInsertor → Result SqlInsertor
  unfolding replace_in_values
  board_card3 value s = replace_in_values (codes "?boardCard3") (card_to_string value) s

  unfoldable pub board_card4 : Card → SqlInsertor → Result SqlInsertor
  unfolding replace_in_values
  board_card4 value s = replace_in_values (codes "?boardCard4") (card_to_string value) s

  unfoldable pub board_card5 : Card → SqlInsertor → Result SqlInsertor
  unfolding replace_in_values
  board_card5 value s = replace_in_values (codes "?boardCard5") (card_to_string value) s

  unfoldable pub game_id : Bytes → SqlInsertor → Result SqlInsertor
  unfolding replace_in_values
  game_id value s = replace_in_values (codes "?gameId") (ok value) s

  unfoldable pub game_name : Bytes → SqlInsertor → Result SqlInsertor
  unfolding replace_in_values
  game_name value s = replace_in_values (codes "?gameName") (ok value) s

  unfoldable pub hand_id : Bytes → SqlInsertor → Result SqlInsertor
  unfolding replace_in_values
  hand_id value s = replace_in_values (codes "?handId") (ok value) s

  unfoldable pub street : Street → SqlInsertor → Result SqlInsertor
  unfolding replace_in_values
  street value s = replace_in_values (codes "?street") (street_to_string value) s

  unfoldable pub action_type : ActionType → SqlInsertor → Result SqlInsertor
  unfolding replace_in_values
  action_type value s = replace_in_values (codes "?actionType") (action_type_to_string value) s

  unfoldable pub action_index : ℕ → SqlInsertor → Result SqlInsertor
  unfolding replace_in_values
  action_index value s = replace_in_values (codes "?actionIndex") (ok (size_to_string value)) s

  unfoldable pub variant : Variant → SqlInsertor → Result SqlInsertor
  unfolding replace_in_values
  variant value s = replace_in_values (codes "?variant") (variant_to_string value) s

  unfoldable pub limit_type : Limit → SqlInsertor → Result SqlInsertor
  unfolding replace_in_values
  limit_type value s = replace_in_values (codes "?limitType") (limit_to_string value) s

  unfoldable pub is_real_money : Bool → SqlInsertor → Result SqlInsertor
  unfolding replace_in_values
  is_real_money value s = replace_in_values (codes "?isRealMoney") (ok (bool_to_string value)) s

  unfoldable pub nb_max_seats : Seat → SqlInsertor → Result SqlInsertor
  unfolding replace_in_values
  nb_max_seats value s = replace_in_values (codes "?nbMaxSeats") (seat_to_string value) s

  unfoldable pub start_date : Bytes → SqlInsertor → Result SqlInsertor
  unfolding replace_in_values
  start_date value s = replace_in_values (codes "?startDate") (ok value) s

  unfoldable pub tournament_id : Bytes → SqlInsertor → Result SqlInsertor
  unfolding replace_in_values
  tournament_id value s = replace_in_values (codes "?tournamentId") (ok value) s

  unfoldable pub cash_game_id : Bytes → SqlInsertor → Result SqlInsertor
  unfolding replace_in_values
  cash_game_id value s = replace_in_values (codes "?cashGameId") (ok value) s

  module _ {D : Type 0} (to_text : D → Bytes) where
    unfoldable pub bet_amount : D → SqlInsertor → Result SqlInsertor
    unfolding replace_in_values
    bet_amount value s = replace_in_values (codes "?betAmount") (ok (to_text value)) s

    unfoldable pub buy_in : D → SqlInsertor → Result SqlInsertor
    unfolding replace_in_values
    buy_in value s = replace_in_values (codes "?buyIn") (ok (to_text value)) s

    unfoldable pub small_blind : D → SqlInsertor → Result SqlInsertor
    unfolding replace_in_values
    small_blind value s = replace_in_values (codes "?smallBlind") (ok (to_text value)) s

    unfoldable pub big_blind : D → SqlInsertor → Result SqlInsertor
    unfolding replace_in_values
    big_blind value s = replace_in_values (codes "?bigBlind") (ok (to_text value)) s

-- formatSQL; replaceAll runs on fuel
unfoldable pub format_sql : ℕ → Bytes → Result Bytes
format_sql fuel sql =
    replace_all fuel sql (codes "FROM") (codes "\nFROM")
    >>= (λ s. replace_all fuel s (codes "WHERE") (codes "\nWHERE"))
    >>= (λ s. replace_all fuel s (codes ",") (codes ",\n\t"))
    >>= (λ s. replace_all fuel s (codes "AND") (codes "AND\n\t"))
    >>= (λ s. replace_all fuel s (codes "OR") (codes "OR\n\t"))
