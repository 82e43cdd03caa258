-- ===== src/History/WinamaxHistory/Alone.antt =====
-- Loading a history directory against parsing each of its files alone, with a player cache of its own.
use phud.Prelude.{ℕ, ◌≡◌, none, some, List, Bytes, map, All}
use phud.Prelude.Result.{Result, ok, err, Build}
use phud.Strings.Floats.{Doubles}
use phud.System.Times.{Times}
use phud.Entities.Site.{Site}
use phud.Threads.PlayerCache.{PlayerCache, new_cache}
use phud.Threads.PlayerCache.Laws.{Inv}
use phud.Threads.PlayerCache.Sharing.{Knows, IsAbort}
use phud.History.GameHistory.{parse_game_history, winamax}
use phud.History.GameHistory.Sharing.{Sharing}
use phud.History.WinamaxHistory.{World, TaskResult}
use phud.History.WinamaxHistory.Batches.{NeverStopped}
use phud.History.WinamaxHistory.Taking.{Has}
use phud.History.WinamaxHistory.Loading.{cash_games_of, tournaments_of}

-- What others may do to a cache: add players.
pub record Grew (c d : PlayerCache) : Type 0 where
  pub names : (n : Bytes) → Knows c.players n → Knows d.players n
  pub site : d.site_name ≡ c.site_name
  pub kept : Inv c → Inv d

-- A parse that returns, or throws what a handler can catch.
abbrev pub Ends : {V : Type 0} → Result V → Type 0
Ends (ok v) = Unit
Ends (err e) = ¬ IsAbort e

module _ (fp : Doubles) (ts : Times) (b : Build) (fuel : ℕ) (w : World) where
  open fp use {Double}
  open ts use {Time}

  -- A file on a cache of its own.
  abbrev pub alone : Bytes → Result (PlayerCache × Site Double Time)
  alone file =
      parse_game_history fp ts b fuel (w.disk.stem file) (w.disk.content file) (new_cache winamax)

  abbrev pub site_of : Result (PlayerCache × Site Double Time) → TaskResult fp ts b fuel w
  site_of (ok (cache, site)) = some site
  site_of (err e) = none

  -- A player that the file has put into its cache.
  abbrev pub Noted : Result (PlayerCache × Site Double Time) → Bytes → Type 0
  Noted (ok (cache, site)) n = Knows cache.players n
  Noted (err e) n = ⊥

  abbrev AllNoted : List Bytes → (Bytes → Type 0) → Type 0
  AllNoted files P = All (λ file. (n : Bytes) → Noted (alone file) n → P n) files

  module _ (go : NeverStopped w.flag)
      (left : (file : Bytes) (c : PlayerCache) → Grew c (w.left file c)) where
    -- What the loaded site has of the files.
    pub record HasAll (site : Site Double Time) (files : List Bytes) : Type 0 where
      pub name : site.name ≡ winamax
      pub cash : site.cash_games ≡ cash_games_of fp ts b fuel w (map (λ f. site_of (alone f)) files)
      pub tournaments :
          site.tournaments ≡ tournaments_of fp ts b fuel w (map (λ f. site_of (alone f)) files)
      pub players : All (λ file. (n : Bytes) → Noted (alone file) n → Has site.players n) files
