-- ===== src/Entities/Site.antt =====
-- entities/Site.hpp and Site.cpp: the players and games of a poker site. The hash table of the players
-- is a list of keys and values; its order stands for the table's, which is not specified.
pub mod Merging
use phud.Prelude.{
  ℕ, suc, ◌≡◌, ◌≢◌, refl, sym, ap, ◌∙◌, List, [], ◌∷◌, ◌++◌, Bytes, Bool, true, false, not,
  is_empty, bytes_eq, eq_of_bytes_eq, bytes_eq_self, Option, none, some, if◌then◌else◌, arith, map,
  Bool-cases, inl, inr, All, append_assoc,
}
use phud.Prelude.Result.{
  Result, ok, err, ◌>>=◌, ◌>>◌, Build, debug, release, require, assertion_failed, >>=-eq-ok,
}
use phud.Entities.Player.{Player}
use phud.Entities.Game.{Tournament, CashGame}

abbrev pub Players : Type 0
Players = List (Bytes × Player)

pub record Site (D T : Type 0) : Type 0 where
  pub name : Bytes
  pub players : Players
  pub cash_games : List (CashGame D T)
  pub tournaments : List (Tournament D T)

-- m_players.find(name)
unfoldable pub find_player : Players → Bytes → Option Player
find_player [] name = none
find_player ((k, p) ∷ players) name = if bytes_eq k name then some p else find_player players name

-- m_players.try_emplace(name, p)
unfoldable pub try_emplace : Players → Bytes → Player → Players
try_emplace [] name p = (name, p) ∷ []
try_emplace ((k, q) ∷ players) name p =
    if bytes_eq k name then (k, q) ∷ players else (k, q) ∷ try_emplace players name p

module _ {D T : Type 0} where
  -- Site::Site
  unfoldable pub new_site : Build → Bytes → Result (Site D T)
  new_site b name = do
    require b (not (is_empty name))
    ok (record { name = name; players = []; cash_games = []; tournaments = [] })

  module _ (b : Build) where
    -- Site::addPlayer
    unfoldable pub add_player : Site D T → Player → Result (Site D T)
    unfolding try_emplace
    add_player s p = do
      require b (bytes_eq p.site s.name)
      ok (record s { players = try_emplace s.players p.name p })

    -- Site::addGame of a cash game
    unfoldable pub add_cash_game : Site D T → CashGame D T → Result (Site D T)
    add_cash_game s g = do
      require b (bytes_eq g.game.site s.name)
      ok (record s { cash_games = s.cash_games ++ (g ∷ []) })

    -- Site::addGame of a tournament
    unfoldable pub add_tournament : Site D T → Tournament D T → Result (Site D T)
    add_tournament s t = do
      require b (bytes_eq t.game.site s.name)
      ok (record s { tournaments = s.tournaments ++ (t ∷ []) })

    -- std::ranges::for_each with addPlayer
    unfoldable pub add_players : Site D T → List Player → Result (Site D T)
    add_players s [] = ok s
    add_players s (p ∷ ps) = do t ← add_player s p; add_players t ps

    -- Site::merge. The other site is left with players and games that have been moved from.
    unfoldable pub merge : Site D T → Site D T → Result (Site D T)
    merge s other = do
      require b (bytes_eq other.name s.name)
      t ← add_players s (map (λ e. e.1) other.players)
      ok (record t {
        cash_games = t.cash_games ++ other.cash_games;
        tournaments = t.tournaments ++ other.tournaments;
      })

  -- Site::viewPlayers, viewPlayer, viewCashGames and viewTournaments
  unfoldable pub view_players : Site D T → List Player
  view_players s = map (λ e. e.1) s.players

  unfoldable pub view_player : Site D T → Bytes → Option Player
  unfolding find_player
  view_player s name = find_player s.players name

  abbrev pub view_cash_games : Site D T → List (CashGame D T)
  view_cash_games s = s.cash_games

  abbrev pub view_tournaments : Site D T → List (Tournament D T)
  view_tournaments s = s.tournaments
