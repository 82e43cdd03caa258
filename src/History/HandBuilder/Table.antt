-- ===== src/History/HandBuilder/Table.antt =====
-- history/WinamaxHandBuilder.cpp: the lines of a hand between the first one and the actions, and the
-- board behind them.
use phud.Prelude.{
  ℕ, zero, suc, ◌+◌, Bytes, codes, List, [], ◌∷◌, Option, none, some, if◌then◌else◌, not, false,
  true, is_empty, replicate,
}
use phud.Prelude.Result.{Result, ok, err, ◌>>=◌, phud_exception, out_of_fuel, Build}
use phud.Prelude.Words.{ℤ, pos, add64, sub64}
use phud.Strings.{to_int, sanitize}
use phud.Text.{starts_with, find, find_from, find?, rfind, substr, contains}
use phud.TextFile.{TextFile, skip, seek}
use phud.Entities.Card.{Card, to_card, no_card}
use phud.Entities.Seat.{Seat, seat_from_string}
use phud.Threads.PlayerCache.{PlayerCache, set_hero, add_if_missing}
use phud.History.Fields.{substr_from, split}

pub record TableLine : Type 0 where
  pub nb_max_seats : Seat
  pub table_name : Bytes
  pub button_seat : Seat

-- std::ranges::transform(cardsStr, ret.begin(), toCard)
unfoldable pub to_cards : List Bytes → Result (List Card)
to_cards [] = ok []
to_cards (s ∷ strs) = do c ← to_card s; cards ← to_cards strs; ok (c ∷ cards)

-- parseCards
unfoldable pub parse_cards : Bytes → Result (List Card)
unfolding to_cards
parse_cards line = do
  let place = add64 (rfind line (codes "[")) 1
  str_cards ← substr line place (sub64 (rfind line (codes "]")) place)
  strs ← split str_cards (codes " ")
  to_cards strs

abbrev pub five_none_cards : List Card
five_none_cards = replicate 5 no_card

module _ (b : Build) where
  -- getNbMaxSeatsTableNameButtonSeatFromTableLine, behind its first tf.next()
  unfoldable pub parse_table_line : Bytes → Result TableLine
  parse_table_line line = do
    let place = find_from line (codes "' ") 8
    name ← substr line 8 (sub64 place 8)
    max ← substr line (add64 place 2) (sub64 (sub64 (find line (codes "-max")) place) 2)
    nb_max_seats ← seat_from_string b max
    let pos_sharp = add64 (find line (codes " Seat #")) 7
    button ← substr line pos_sharp (sub64 (find line (codes " is the button")) pos_sharp)
    button_seat ← seat_from_string b button
    if starts_with line (codes "Seat ")
        then err phud_exception
        else ok (record {
          nb_max_seats = nb_max_seats;
          table_name = sanitize name;
          button_seat = button_seat;
        })

  -- getNbMaxSeatsTableNameButtonSeatFromTableLine
  unfoldable pub table_line : TextFile → Result (TextFile × TableLine)
  unfolding parse_table_line
  table_line tf = do let tf = skip tf; t ← parse_table_line tf.line; ok (skip tf, t)

  -- the lambda over the seats in getHand
  unfoldable pub add_seats : PlayerCache → List Bytes → Result PlayerCache
  add_seats cache [] = ok cache
  add_seats cache (p ∷ seats) = do
    c ← if is_empty p then ok cache else add_if_missing b cache p
    add_seats c seats

  -- parseHeroCards on a line that starts with "Dealt to "
  unfoldable pub hero_line : TextFile → PlayerCache → Result (TextFile × PlayerCache × List Card)
  unfolding parse_cards
  hero_line tf cache = do
    player_name ← substr tf.line 9 (sub64 (find_from tf.line (codes " ") 9) 9)
    c ← set_hero b cache player_name
    cards ← parse_cards tf.line
    ok (skip tf, c, cards)

  -- parseHeroCards
  unfoldable pub parse_hero_cards :
      TextFile → PlayerCache → Result (TextFile × PlayerCache × List Card)
  unfolding hero_line
  parse_hero_cards tf cache =
      if starts_with tf.line (codes "Dealt to ")
      then hero_line tf cache
      else ok (tf, cache, five_none_cards)

-- the ante of a line, 0 where it has none
unfoldable pub ante_of : Bytes → Option ℕ → Result ℤ
ante_of line none = ok (pos 0)
ante_of line (some place) = substr_from line (place + 12) >>= to_int

-- parseAnte
unfoldable pub parse_ante : ℕ → TextFile → Result (TextFile × ℤ)
unfolding ante_of
parse_ante fuel tf = do
  ante ← ante_of tf.line (find? tf.line (codes " posts ante "))
  tf' ← seek (λ line. not (contains line (codes " posts "))) fuel tf
  ok (tf', ante)

-- one line of the loop of parseBoardCards
unfoldable pub board_line : Bytes → List Card → Result (List Card)
unfolding parse_cards
board_line line ret = if starts_with line (codes "Board: ") then parse_cards line else ok ret

-- the loop of parseBoardCards
unfoldable pub board_loop : ℕ → TextFile → List Card → Result (TextFile × List Card)
unfolding board_line
board_loop zero tf ret = err out_of_fuel
board_loop (suc fuel) tf ret = elim (is_empty tf.line) [
  | true ↦ ok (tf, ret)
  | false ↦ board_line tf.line ret >>= λ ret'. board_loop fuel (skip tf) ret'
]

-- parseBoardCards
unfoldable pub parse_board_cards : ℕ → TextFile → Result (TextFile × List Card)
unfolding board_loop
parse_board_cards fuel tf = do r ← board_loop fuel tf five_none_cards; ok (skip r.0, r.1)
