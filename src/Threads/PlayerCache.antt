-- ===== src/Threads/PlayerCache.antt =====
-- threads/PlayerCache.hpp and PlayerCache.cpp. Each member holds the mutex from its first line to its
-- return, so a history is a sequence of calls. The std::map is a list in the order of its keys, which
-- is that of the bytes.
pub mod Order
pub mod Laws
pub mod Sharing
use Prim.Native.Nat.{compare, Ordering}
use phud.Prelude.{
  ℕ, suc, ◌≡◌, refl, List, [], ◌∷◌, Bytes, Bool, true, false, not, is_empty, bytes_eq, Option, none,
  some, if◌then◌else◌, map,
}
use phud.Prelude.Result.{
  Result, Error, ok, err, ◌>>=◌, ◌>>◌, Build, debug, release, require, undefined_behaviour,
}
use phud.Entities.Player.{Player, new_player, set_is_hero}
use phud.Entities.Site.{Players, find_player}

pub record PlayerCache : Type 0 where
  pub players : Players
  pub site_name : Bytes

unfoldable pub new_cache : Bytes → PlayerCache
new_cache site_name = record { players = []; site_name = site_name }

-- std::less on std::string
unfoldable pub compare_bytes : Bytes → Bytes → Ordering
compare_bytes [] [] = Ordering.eq
compare_bytes [] (d ∷ t) = Ordering.lt
compare_bytes (c ∷ s) [] = Ordering.gt
compare_bytes (c ∷ s) (d ∷ t) = elim (compare c d) [
  | Ordering.lt ↦ Ordering.lt
  | Ordering.eq ↦ compare_bytes s t
  | Ordering.gt ↦ Ordering.gt
]

-- m_players.emplace: nothing where the key is there
unfoldable pub emplace : Players → Bytes → Player → Players
unfolding compare_bytes
emplace [] k p = (k, p) ∷ []
emplace ((j, q) ∷ m) k p =
    let rest = emplace m k p in
    elim (compare_bytes k j) [
      | Ordering.lt ↦ (k, p) ∷ (j, q) ∷ m
      | Ordering.eq ↦ (j, q) ∷ m
      | Ordering.gt ↦ (j, q) ∷ rest
    ]

-- it->second->setIsHero(true), at the key that was found
unfoldable pub mark_hero : Players → Bytes → Players
mark_hero [] k = []
mark_hero ((j, q) ∷ m) k =
    if bytes_eq j k then (j, set_is_hero q true) ∷ m else (j, q) ∷ mark_hero m k

-- m_players.erase(it)
pub erase_key : Players → Bytes → Players
erase_key [] k = []
erase_key ((j, q) ∷ m) k = if bytes_eq j k then m else (j, q) ∷ erase_key m k

abbrev pub is_there : Option Player → Bool
is_there none = false
is_there (some p) = true

-- What a release build does with the end iterator.
abbrev pub at_end {ℓ} : {A : Type ℓ} → Option Player → A → Result A
at_end none a = err undefined_behaviour
at_end (some p) a = ok a

module _ (b : Build) where
  -- PlayerCache::setIsHero
  unfoldable pub set_hero : PlayerCache → Bytes → Result PlayerCache
  unfolding find_player mark_hero
  set_hero c name = do
    require b (is_there (find_player c.players name))
    at_end (find_player c.players name) (record c { players = mark_hero c.players name })

  -- PlayerCache::erase
  pub erase : PlayerCache → Bytes → Result PlayerCache
  unfolding find_player erase_key
  erase c name = do
    require b (is_there (find_player c.players name))
    at_end (find_player c.players name) (record c { players = erase_key c.players name })

  -- PlayerCache::addIfMissing: the new player is made before the map is asked
  unfoldable pub add_if_missing : PlayerCache → Bytes → Result PlayerCache
  unfolding new_player emplace
  add_if_missing c name = do
    p ← new_player b name c.site_name []
    ok (record c { players = emplace c.players name p })

-- PlayerCache::isEmpty
pub is_cache_empty : PlayerCache → Bool
is_cache_empty c = is_empty c.players

-- PlayerCache::extractPlayers
unfoldable pub extract_players : PlayerCache → List Player × PlayerCache
extract_players c = (map (λ e. e.1) c.players, record c { players = [] })
