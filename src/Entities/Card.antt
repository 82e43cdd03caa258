-- ===== src/Entities/Card.antt =====
-- entities/Card.hpp and Card.cpp: the cards and their two-letter names. `no_card` is Card::none.
use phud.Prelude.{ℕ, ◌≡◌, refl, List, [], ◌∷◌, Bytes, codes}
use phud.Prelude.Result.{Result, ok, ◌>>=◌}
use phud.Enums.{to_string, from_string, to_string-from}

pub data Card : Type 0 where
  no_card two_spade three_spade four_spade five_spade six_spade seven_spade eight_spade : Card
  nine_spade ten_spade jack_spade queen_spade king_spade ace_spade two_heart three_heart : Card
  four_heart five_heart six_heart seven_heart eight_heart nine_heart ten_heart jack_heart : Card
  queen_heart king_heart ace_heart two_diamond three_diamond four_diamond five_diamond six_diamond :
      Card
  seven_diamond eight_diamond nine_diamond ten_diamond jack_diamond queen_diamond king_diamond
        ace_diamond :
      Card
  two_club three_club four_club five_club six_club seven_club eight_club nine_club : Card
  ten_club jack_club queen_club king_club ace_club : Card

-- the short under an enumerator
unfoldable pub short_of : Card → ℕ
short_of no_card = 0
short_of two_spade = 1
short_of three_spade = 2
short_of four_spade = 3
short_of five_spade = 4
short_of six_spade = 5
short_of seven_spade = 6
short_of eight_spade = 7
short_of nine_spade = 8
short_of ten_spade = 9
short_of jack_spade = 10
short_of queen_spade = 11
short_of king_spade = 12
short_of ace_spade = 13
short_of two_heart = 14
short_of three_heart = 15
short_of four_heart = 16
short_of five_heart = 17
short_of six_heart = 18
short_of seven_heart = 19
short_of eight_heart = 20
short_of nine_heart = 21
short_of ten_heart = 22
short_of jack_heart = 23
short_of queen_heart = 24
short_of king_heart = 25
short_of ace_heart = 26
short_of two_diamond = 27
short_of three_diamond = 28
short_of four_diamond = 29
short_of five_diamond = 30
short_of six_diamond = 31
short_of seven_diamond = 32
short_of eight_diamond = 33
short_of nine_diamond = 34
short_of ten_diamond = 35
short_of jack_diamond = 36
short_of queen_diamond = 37
short_of king_diamond = 38
short_of ace_diamond = 39
short_of two_club = 40
short_of three_club = 41
short_of four_club = 42
short_of five_club = 43
short_of six_club = 44
short_of seven_club = 45
short_of eight_club = 46
short_of nine_club = 47
short_of ten_club = 48
short_of jack_club = 49
short_of queen_club = 50
short_of king_club = 51
short_of ace_club = 52

-- CARD_MAPPER
unfoldable pub card_names : List (Card × Bytes)
card_names =
    (no_card, codes "none")
    ∷ (two_spade, codes "2s")
    ∷ (three_spade, codes "3s")
    ∷ (four_spade, codes "4s")
    ∷ (five_spade, codes "5s")
    ∷ (six_spade, codes "6s")
    ∷ (seven_spade, codes "7s")
    ∷ (eight_spade, codes "8s")
    ∷ (nine_spade, codes "9s")
    ∷ (ten_spade, codes "Ts")
    ∷ (jack_spade, codes "Js")
    ∷ (queen_spade, codes "Qs")
    ∷ (king_spade, codes "Ks")
    ∷ (ace_spade, codes "As")
    ∷ (two_heart, codes "2h")
    ∷ (three_heart, codes "3h")
    ∷ (four_heart, codes "4h")
    ∷ (five_heart, codes "5h")
    ∷ (six_heart, codes "6h")
    ∷ (seven_heart, codes "7h")
    ∷ (eight_heart, codes "8h")
    ∷ (nine_heart, codes "9h")
    ∷ (ten_heart, codes "Th")
    ∷ (jack_heart, codes "Jh")
    ∷ (queen_heart, codes "Qh")
    ∷ (king_heart, codes "Kh")
    ∷ (ace_heart, codes "Ah")
    ∷ (two_diamond, codes "2d")
    ∷ (three_diamond, codes "3d")
    ∷ (four_diamond, codes "4d")
    ∷ (five_diamond, codes "5d")
    ∷ (six_diamond, codes "6d")
    ∷ (seven_diamond, codes "7d")
    ∷ (eight_diamond, codes "8d")
    ∷ (nine_diamond, codes "9d")
    ∷ (ten_diamond, codes "Td")
    ∷ (jack_diamond, codes "Jd")
    ∷ (queen_diamond, codes "Qd")
    ∷ (king_diamond, codes "Kd")
    ∷ (ace_diamond, codes "Ad")
    ∷ (two_club, codes "2c")
    ∷ (three_club, codes "3c")
    ∷ (four_club, codes "4c")
    ∷ (five_club, codes "5c")
    ∷ (six_club, codes "6c")
    ∷ (seven_club, codes "7c")
    ∷ (eight_club, codes "8c")
    ∷ (nine_club, codes "9c")
    ∷ (ten_club, codes "Tc")
    ∷ (jack_club, codes "Jc")
    ∷ (queen_club, codes "Qc")
    ∷ (king_club, codes "Kc")
    ∷ (ace_club, codes "Ac")
    ∷ []

pub card_to_string : Card → Result Bytes
unfolding short_of card_names to_string
card_to_string c = to_string short_of card_names c

unfoldable pub to_card : Bytes → Result Card
unfolding card_names from_string
to_card s = from_string short_of card_names s

-- Every card is read back from its name.
pub to_card-to_string : (c : Card) → (card_to_string c >>= to_card) ≡ ok c
unfolding card_to_string to_card
to_card-to_string no_card = refl
to_card-to_string c = refl

-- A text that is read as a card is the name of that card.
pub to_string-to_card : (s : Bytes) (c : Card) → to_card s ≡ ok c → card_to_string c ≡ ok s
unfolding card_to_string to_card
to_string-to_card s c h = to_string-from short_of card_names s c refl h
