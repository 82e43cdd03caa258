-- ===== src/Threads/PlayerCache/Laws.antt =====
-- Sequences of calls on the player cache (threads/PlayerCache.cpp), and what each call changes.
use phud.Prelude.{
  ◌≡◌, ◌≢◌, refl, sym, ap, ◌∙◌, List, [], ◌∷◌, Bytes, true, false, bytes_eq, Option, none, some,
  if◌then◌else◌, arith, subst, bytes_eq_self,
}
use phud.Prelude.Result.{Result, ok, ◌>>=◌, ◌>>◌, Build, debug, release, require, >>=-eq-ok}
use phud.Entities.Player.{Player, set_is_hero}
use phud.Entities.Site.{Players, find_player}
use phud.Entities.Site.Merging.{AreFiled, or_else}
use phud.Threads.PlayerCache.{
  new_cache, PlayerCache, emplace, mark_hero, is_there, at_end, set_hero, erase, add_if_missing,
}
use phud.Threads.PlayerCache.Order.{
  Rises, emplace-Rises, emplace-AreFiled, find-emplace, mark_hero-Rises, mark_hero-AreFiled,
  erase-Rises, erase-AreFiled,
}

-- The keys rise, and each player is filed under his name and of the cache's site.
pub record Inv (c : PlayerCache) : Type 0 where
  pub rises : Rises c.players
  pub files : AreFiled c.site_name c.players

-- The calls that threads make, one after the other.
pub data Call : Type 0 where
  adds heroes erases : Bytes → Call

abbrev pub call : Build → PlayerCache → Call → Result PlayerCache
call b c (adds name) = add_if_missing b c name
call b c (heroes name) = set_hero b c name
call b c (erases name) = erase b c name

abbrev pub run : Build → PlayerCache → List Call → Result PlayerCache
run b c [] = ok c
run b c (x ∷ xs) = call b c x >>= λ d. run b d xs

found_ok :
    (b : Build) (o : Option Player) (c d : PlayerCache)
    → ((require b (is_there o)) >> at_end o c) ≡ ok d
    → (d ≡ c) × (o ≢ none)
found_ok debug none c d h = cc
found_ok release none c d h = cc
found_ok debug (some p) c d h = (cc, cc)
found_ok release (some p) c d h = (cc, cc)

add_ok :
    (b : Build) (c d : PlayerCache) (name : Bytes)
    → add_if_missing b c name ≡ ok d
    → (p : Player) × (p.name ≡ name)
      × (p.site ≡ c.site_name)
      × (p.is_hero ≡ false)
      × (d ≡ record c { players = emplace c.players name p })
unfolding add_if_missing
add_ok debug c d name h = (
  record { name = name; site = c.site_name; comments = []; is_hero = false },
  refl,
  refl,
  refl,
  ground arith,
)
add_ok release c d name h = (
  record { name = name; site = c.site_name; comments = []; is_hero = false },
  refl,
  refl,
  refl,
  ground arith,
)

pub call-Inv : (b : Build) (c d : PlayerCache) (x : Call) → Inv c → call b c x ≡ ok d → Inv d
unfolding set_hero erase
call-Inv b c d (adds name) v h =
    let (p, n, s, _, e) = add_ok b c d name h in
    subst Inv (sym e) (record {
      rises = emplace-Rises name p c.players v.rises;
      files = emplace-AreFiled c.site_name name p c.players (sym n) s v.files;
    })
call-Inv b c d (heroes name) v h =
    let (e, _) = found_ok b (find_player c.players name) _ d h in
    subst Inv (sym e) (record {
      rises = mark_hero-Rises name c.players v.rises;
      files = mark_hero-AreFiled c.site_name name c.players v.files;
    })
call-Inv b c d (erases name) v h =
    let (e, _) = found_ok b (find_player c.players name) _ d h in
    subst Inv (sym e) (record {
      rises = erase-Rises name c.players v.rises;
      files = erase-AreFiled c.site_name name c.players v.files;
    })

run-Inv : (b : Build) (c d : PlayerCache) (xs : List Call) → Inv c → run b c xs ≡ ok d → Inv d
run-Inv b c d [] v h = subst Inv (ground (arith, h)) v
run-Inv b c d (x ∷ xs) v h =
    let (c', e, later) = >>=-eq-ok (call b c x) (λ e. run b e xs) h in
    run-Inv b c' d xs (call-Inv b c c' x v e) later

-- After any calls of addIfMissing, setIsHero and erase on a new cache that do not fail, in either
-- build, the names of the players rise, so that no name stands twice, and each player is filed
-- under his name and of the site of the cache.
pub run-new_cache-Inv :
    (b : Build) (site : Bytes) (xs : List Call) (d : PlayerCache)
    → run b (new_cache site) xs ≡ ok d
    → Inv d
unfolding new_cache
run-new_cache-Inv b site xs d h =
    run-Inv b (new_cache site) d xs (record { rises = tt; files = tt }) h

-- A call of addIfMissing that returns, on a cache that satisfies its invariant, leaves every player
-- that was there as he was, and the name is there afterwards, as that of a new player who is no
-- hero if it was not there.
pub find-add_if_missing :
    (b : Build) (c d : PlayerCache) (name j : Bytes)
    → Inv c
    → add_if_missing b c name ≡ ok d
    → (p : Player) × (p.name ≡ name)
      × (p.is_hero ≡ false)
      × (find_player d.players j
          ≡ or_else (find_player c.players j) (if bytes_eq name j then some p else none))
find-add_if_missing b c d name j v h =
    let (p, n, s, z, e) = add_ok b c d name h in
    (
      p,
      n,
      z,
      ap (λ (k : PlayerCache). find_player k.players j) e ∙ find-emplace name j p c.players v.rises,
    )

find-mark_hero :
    (m : Players) (k : Bytes) (p : Player)
    → find_player m k ≡ some p
    → find_player (mark_hero m k) k ≡ some (set_is_hero p true)
unfolding find_player mark_hero
find-mark_hero [] k p h = cc
find-mark_hero ((j, q) ∷ m) k p h = ground (arith, find-mark_hero m k p, bytes_eq_self k)

-- setIsHero on a name of the cache succeeds in either build, and that name then finds the same
-- player as the hero.
pub find-set_hero :
    (b : Build) (c : PlayerCache) (name : Bytes) (p : Player)
    → find_player c.players name ≡ some p
    → (d : PlayerCache) × (set_hero b c name ≡ ok d)
      × (find_player d.players name ≡ some (set_is_hero p true))
unfolding set_hero
find-set_hero debug c name p h =
    (record c { players = mark_hero c.players name }, rw h, find-mark_hero c.players name p h)
find-set_hero release c name p h =
    (record c { players = mark_hero c.players name }, rw h, find-mark_hero c.players name p h)
