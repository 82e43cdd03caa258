-- ===== src/History/WinamaxHistory/Parsed.antt =====
-- The site that the parser of one file returns to a task.
use phud.Prelude.{ℕ, ◌≡◌, refl, inl, inr, Option, none, some, [], Bytes, arith, bytes_eq}
use phud.Prelude.Result.{Result, ok, Build, debug, release, require, Result-cases}
use phud.Strings.{sanitize}
use phud.Strings.Floats.{Doubles}
use phud.System.Times.{Times}
use phud.Threads.PlayerCache.{PlayerCache}
use phud.Entities.Site.{Site, new_site, add_cash_game, add_tournament}
use phud.History.GameHistory.{
  GameKind, create_game, add_created, handle_game, no_game, parse_game_history, winamax, cash_games,
  tournaments,
}

-- A site of the loaded files: its players are in the cache.
abbrev pub IsFresh : {D T : Type 0} → Site D T → Type 0
IsFresh s = (s.name ≡ winamax) × (s.players ≡ [])

module _ (fp : Doubles) (ts : Times) (b : Build) (fuel : ℕ) where
  open fp use {Double}
  open ts use {Time}

  abbrev pub empty_site : Site Double Time
  empty_site = record { name = winamax; players = []; cash_games = []; tournaments = [] }

  pub new_site-winamax : new_site b winamax ≡ ok empty_site
  unfolding new_site
  new_site-winamax = elim b as (λ k. new_site k winamax ≡ ok empty_site) [
    | debug ↦ refl
    | release ↦ refl
  ]

  unfoldable Keeps : {G : Type 0} → (Site Double Time → G → Result (Site Double Time)) → Type 0
  Keeps {G} add_game =
      (s t : Site Double Time) (g : G) → add_game s g ≡ ok t → IsFresh s → IsFresh t

  add_cash_game-Keeps : Keeps (add_cash_game b)
  unfolding Keeps add_cash_game
  add_cash_game-Keeps s t g e h = elim (Result-cases (require b (bytes_eq g.game.site s.name))) [
    | inr (x, p) ↦ ground (arith, e, p)
    | inl (u, p) ↦ ground (arith, e, p, h)
  ]

  add_tournament-Keeps : Keeps (add_tournament b)
  unfolding Keeps add_tournament
  add_tournament-Keeps s t g e h = elim (Result-cases (require b (bytes_eq g.game.site s.name))) [
    | inr (x, p) ↦ ground (arith, e, p)
    | inl (u, p) ↦ ground (arith, e, p, h)
  ]

  add_created-IsFresh :
      {G : Type 0} (add_game : Site Double Time → G → Result (Site Double Time))
      (c c' : PlayerCache) (o : Option G) (s : Site Double Time)
      → Keeps add_game
      → add_created fp ts b fuel add_game (c, o) ≡ ok (c', s)
      → IsFresh s
  unfolding Keeps add_created
  add_created-IsFresh add_game c c' none s k e = ground (arith, e, new_site-winamax)
  add_created-IsFresh add_game c c' (some g) s k e = elim (Result-cases (add_game empty_site g)) [
    | inr (x, p) ↦ ground (arith, e, new_site-winamax, p)
    | inl (t, p) ↦ ground (arith, e, new_site-winamax, p, k empty_site t g p (refl, refl))
  ]

  handle_game-IsFresh :
      {G : Type 0} (kind : GameKind Double Time G)
      (add_game : Site Double Time → G → Result (Site Double Time)) (stem content : Bytes)
      (c c' : PlayerCache) (s : Site Double Time)
      → Keeps add_game
      → handle_game fp ts b fuel kind add_game stem content c ≡ ok (c', s)
      → IsFresh s
  unfolding handle_game
  handle_game-IsFresh kind add_game stem content c c' s k e =
      elim (Result-cases (create_game kind fuel (sanitize stem) content c)) [
        | inr (x, p) ↦ ground (arith, e, p)
        | inl ((c1, o), p) ↦ add_created-IsFresh add_game c1 c' o s k (rw p at e)
      ]

  pub parse_game_history-IsFresh :
      (stem content : Bytes) (c c' : PlayerCache) (s : Site Double Time)
      → parse_game_history fp ts b fuel stem content c ≡ ok (c', s)
      → IsFresh s
  unfolding parse_game_history no_game
  parse_game_history-IsFresh stem content c c' s e = ground (
    arith,
    e,
    new_site-winamax,
    handle_game-IsFresh (tournaments fp ts b fuel) (add_tournament b) stem content c c' s
        add_tournament-Keeps,
    handle_game-IsFresh (cash_games fp ts b fuel) (add_cash_game b) stem content c c' s
        add_cash_game-Keeps,
  )
