-- ===== src/History/GameHistory.antt =====
-- history/WinamaxGameHistory.cpp: the game of one history file, with its hands. The stem of the file's
-- name and the file's content are arguments.
pub mod Loop
pub mod Sharing
pub mod Winners
use phud.Prelude.{
  ℕ, zero, suc, ◌-◌, Bool, true, false, not, ◌&&◌, ◌==◌, List, [], ◌∷◌, Bytes, codes, length, ltb,
  if◌then◌else◌, Option, none, some,
}
use phud.Prelude.Result.{Result, ok, err, ◌>>=◌, Build, out_of_fuel}
use phud.Prelude.Words.{npos, sub64}
use phud.Text.{contains, ends_with, find_from, substr}
use phud.TextFile.{TextFile, open_file, next}
use phud.Strings.{sanitize}
use phud.Strings.Floats.{Doubles}
use phud.System.Times.{Times}
use phud.Entities.Hand.{Hand}
use phud.Entities.Game
use phud.Entities.Game.{
  Variant, no_variant, holdem, omaha, omaha5, Limit, no_limit, pot_limit, Tournament, CashGame,
  add_hand, new_tournament, new_cash_game,
}
use phud.Entities.Player.{Player}
use phud.Entities.Site.{Site, new_site, add_cash_game, add_tournament, add_players}
use phud.Threads.PlayerCache.{PlayerCache, new_cache, extract_players}
use phud.History.HandBuilder.{
  GameData, Built, build_cashgame_hand, build_tournament_hand, build_cashgame_hand_and_game_data,
  build_tournament_hand_and_game_data,
}

pub record FileStem : Type 0 where
  pub is_real_money : Bool
  pub game_name : Bytes
  pub variant : Variant
  pub limit_type : Limit

-- fileStemToVariant
unfoldable pub file_stem_to_variant : Bytes → Variant
file_stem_to_variant stem =
    if contains stem (codes "_holdem_")
    then holdem
    else if contains stem (codes "_omaha_")
    then omaha
    else if contains stem (codes "_omaha5_")
    then omaha5
    else no_variant

-- fileStemToLimit
unfoldable pub file_stem_to_limit : Bytes → Limit
file_stem_to_limit stem =
    if ltb (length stem) 11
    then Game.none
    else if ends_with stem (codes "_pot-limit")
    then pot_limit
    else if ends_with stem (codes "_no-limit")
    then no_limit
    else Game.none

-- FileStem ret = {}
abbrev pub no_stem : FileStem
no_stem = record {
  is_real_money = false;
  game_name = [];
  variant = no_variant;
  limit_type = Game.none;
}

-- parseFileStem
unfoldable pub parse_file_stem : Bytes → Result (Option FileStem)
unfolding file_stem_to_variant file_stem_to_limit
parse_file_stem stem =
    let place = find_from stem (codes "_real_") 9 in
    let is_real_money = not (place == npos) in
    if ltb (length stem) 12
    then ok (some no_stem)
    else if not is_real_money && find_from stem (codes "_play_") 9 == npos
    then ok (some (record no_stem { is_real_money = is_real_money }))
    else (substr stem 9 (sub64 place 9) >>= λ game_name. ok (
        some (record {
          is_real_money = is_real_money;
          game_name = game_name;
          variant = file_stem_to_variant stem;
          limit_type = file_stem_to_limit stem;
        })))

-- fillFromFileName
unfoldable pub fill_from_file_name : {D T : Type 0} → FileStem → GameData D T → GameData D T
fill_from_file_name values game_data = record game_data {
  is_real_money = values.is_real_money;
  game_name = values.game_name;
  variant = values.variant;
  limit_type = values.limit_type;
}

-- What the templates take from their type of game.
pub record GameKind (D T G : Type 0) : Type 0 where
  pub build_hand : TextFile → PlayerCache → Result (Built (Hand D T))
  pub build_hand_and_game_data : TextFile → PlayerCache → Result (Built (Hand D T × GameData D T))
  pub new_game : Bytes → GameData D T → Result G
  pub add : G → Hand D T → G

module _ {D T G : Type 0} (kind : GameKind D T G) where
  open kind use {build_hand, build_hand_and_game_data, new_game, add}

  -- one round of the loop of createGame, behind tfl.next()
  unfoldable pub create_step :
      Bytes → FileStem → TextFile → PlayerCache → Option G → Result (Built G)
  unfolding fill_from_file_name
  create_step stem values tf cache none = do
    (tf', cache', (hand, game_data)) ← build_hand_and_game_data tf cache
    game ← new_game stem (fill_from_file_name values game_data)
    ok (tf', cache', add game hand)
  create_step stem values tf cache (some game) = do
    (tf', cache', hand) ← build_hand tf cache
    ok (tf', cache', add game hand)

  unfoldable pub create_loop :
      ℕ → Bytes → FileStem → TextFile → PlayerCache → Option G → Result (PlayerCache × Option G)
  unfolding create_step
  create_loop zero stem values tf cache ret = err out_of_fuel
  create_loop (suc fuel) stem values tf cache ret = elim (next tf).1 [
    | false ↦ ok (cache, ret)
    | true ↦ create_step stem values (next tf).0 cache ret >>= λ r.
        create_loop fuel stem values r.0 r.1 (some r.2)
  ]

  -- createGame, on the sanitized stem
  unfoldable pub create_game : ℕ → Bytes → Bytes → PlayerCache → Result (PlayerCache × Option G)
  unfolding parse_file_stem create_loop
  create_game fuel stem content cache = parse_file_stem stem >>= λ o. elim o [
    | none ↦ ok (cache, none)
    | some values ↦ create_loop fuel stem values (open_file content) cache none
  ]

-- The stem tells neither real money nor play money.
abbrev pub is_neither : Bytes → Bool
is_neither stem =
    find_from stem (codes "_real_") 9 == npos && find_from stem (codes "_play_") 9 == npos

-- ProgramInfos::WINAMAX_SITE_NAME
abbrev pub winamax : Bytes
winamax = codes "Winamax"

module _ (fp : Doubles) (ts : Times) (b : Build) (fuel : ℕ) where
  open fp use {Double}
  open ts use {Time}

  abbrev pub game_of : Bytes → GameData Double Time → Game.Game Double Time
  game_of stem game_data = record {
    id = stem;
    site = winamax;
    name = game_data.game_name;
    hands = [];
    start_date = game_data.start_date;
    variant = game_data.variant;
    limit_type = game_data.limit_type;
    nb_max_seats = game_data.nb_max_seats;
    is_real_money = game_data.is_real_money;
  }

  -- the templates at CashGame
  unfoldable pub cash_games : GameKind Double Time (CashGame Double Time)
  cash_games = record {
    build_hand = build_cashgame_hand fp ts b fuel;
    build_hand_and_game_data = build_cashgame_hand_and_game_data fp ts b fuel;
    new_game = λ stem gd. new_cash_game fp b (game_of stem gd) gd.small_blind gd.big_blind;
    add = λ g hand. record g { game = add_hand g.game hand };
  }

  -- the templates at Tournament
  unfoldable pub tournaments : GameKind Double Time (Tournament Double Time)
  tournaments = record {
    build_hand = build_tournament_hand fp ts b fuel;
    build_hand_and_game_data = build_tournament_hand_and_game_data fp ts b fuel;
    new_game = λ stem gd. new_tournament fp b (game_of stem gd) gd.buy_in;
    add = λ t hand. record t { game = add_hand t.game hand };
  }

  -- pSite->addGame(std::move(g)), where there is a game
  unfoldable pub add_created :
      {G : Type 0}
      → (Site Double Time → G → Result (Site Double Time))
      → PlayerCache × Option G
      → Result (PlayerCache × Site Double Time)
  add_created add_game (cache, none) = do site ← new_site b winamax; ok (cache, site)
  add_created add_game (cache, some g) = do
    site ← new_site b winamax
    site' ← add_game site g
    ok (cache, site')

  -- handleGame
  unfoldable pub handle_game :
      {G : Type 0}
      → GameKind Double Time G
      → (Site Double Time → G → Result (Site Double Time))
      → Bytes
      → Bytes
      → PlayerCache
      → Result (PlayerCache × Site Double Time)
  unfolding create_game add_created
  handle_game kind add_game stem content cache =
      create_game kind fuel (sanitize stem) content cache >>= λ r. add_created add_game r

  -- the site of a file that is not read
  unfoldable pub no_game : PlayerCache → Result (PlayerCache × Site Double Time)
  no_game cache = do site ← new_site b winamax; ok (cache, site)

  -- parseGameHistory with a cache
  unfoldable pub parse_game_history :
      Bytes → Bytes → PlayerCache → Result (PlayerCache × Site Double Time)
  unfolding handle_game no_game cash_games tournaments
  parse_game_history stem content cache =
      if ltb (length stem) 12
      then no_game cache
      else if contains stem (codes "!")
      then no_game cache
      else if is_neither stem
      then no_game cache
      else if contains stem (codes "(")
      then handle_game tournaments (add_tournament b) stem content cache
      else handle_game cash_games (add_cash_game b) stem content cache

  -- parseGameHistory with its own cache
  unfoldable pub parse_game_history_alone : Bytes → Bytes → Result (Site Double Time)
  unfolding parse_game_history
  parse_game_history_alone stem content = do
    (cache, site) ← parse_game_history stem content (new_cache winamax)
    add_players b site (extract_players cache).0
