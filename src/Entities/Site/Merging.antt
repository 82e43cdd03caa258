-- ===== src/Entities/Site/Merging.antt =====
-- The players and the games of a merged site (entities/Site.cpp).
use phud.Prelude.{
  ◌≡◌, ◌≢◌, refl, ◌∙◌, [], ◌∷◌, ◌++◌, Bytes, Bool, true, false, bytes_eq, eq_of_bytes_eq,
  bytes_eq_self, Option, none, some, if◌then◌else◌, arith, map, Bool-cases, inl, inr, All,
}
use phud.Prelude.Result.{ok, err, Build, debug, release, require, assertion_failed}
use phud.Entities.Player.{Player}
use phud.Entities.Site.{
  Players, Site, find_player, try_emplace, add_player, add_players, merge, view_player,
}

-- The one that is there, or else the other.
abbrev pub or_else : Option Player → Option Player → Option Player
or_else none o = o
or_else (some p) o = some p

-- Each player is filed under his own name, at the site.
abbrev pub IsFiled : Bytes → Bytes × Player → Type 0
IsFiled site e = (e.0 ≡ e.1.name) × (e.1.site ≡ site)

abbrev pub AreFiled : Bytes → Players → Type 0
AreFiled site = All (IsFiled site)

pub find_player-try_emplace :
    (m : Players) (k j : Bytes) (p : Player)
    → find_player (try_emplace m k p) j
      ≡ or_else (find_player m j) (if bytes_eq k j then some p else none)
unfolding find_player try_emplace
find_player-try_emplace [] k j p = refl
find_player-try_emplace ((i, q) ∷ m) k j p = ground (
  arith,
  find_player-try_emplace m k j p,
  eq_of_bytes_eq i k,
  eq_of_bytes_eq i j,
  eq_of_bytes_eq k j,
  bytes_eq_self j,
)

try_emplace-AreFiled :
    (site : Bytes) (m : Players) (p : Player)
    → p.site ≡ site
    → AreFiled site m
    → AreFiled site (try_emplace m p.name p)
unfolding try_emplace
try_emplace-AreFiled site [] p h v = ((refl, h), tt)
try_emplace-AreFiled site ((k, q) ∷ m) p h v = elim (Bool-cases (bytes_eq k p.name)) [
  | inl e ↦ rw e v
  | inr e ↦ rw e (v.0, try_emplace-AreFiled site m p h v.1)
]

or_else_assoc : (a b c : Option Player) → or_else (or_else a b) c ≡ or_else a (or_else b c)
or_else_assoc none b c = refl
or_else_assoc (some p) b c = refl

-- The players of `m`, and those of `ps` under other names.
all_emplaced : Players → Players → Players
all_emplaced m [] = m
all_emplaced m ((k, p) ∷ ps) = all_emplaced (try_emplace m p.name p) ps

find_player-all_emplaced :
    (site : Bytes) (m ps : Players) (j : Bytes)
    → AreFiled site ps
    → find_player (all_emplaced m ps) j ≡ or_else (find_player m j) (find_player ps j)
unfolding all_emplaced find_player
find_player-all_emplaced site m [] j v = or_none (find_player m j)
  where
    or_none : (o : Option Player) → o ≡ or_else o none
    or_none none = refl
    or_none (some p) = refl
find_player-all_emplaced site m ((k, p) ∷ ps) j (h, v) =
    find_player-all_emplaced site (try_emplace m p.name p) ps j v
    ∙ rw (find_player-try_emplace m p.name j p, h.0)
        (or_split (find_player m j) (bytes_eq p.name j))
  where
    or_split :
        (o : Option Player) (c : Bool)
        → or_else (or_else o (if c then some p else none)) (find_player ps j)
          ≡ or_else o (if c then some p else find_player ps j)
    or_split none true = refl
    or_split none false = refl
    or_split (some q) c = refl

all_emplaced-AreFiled :
    (site : Bytes) (m ps : Players)
    → AreFiled site ps
    → AreFiled site m
    → AreFiled site (all_emplaced m ps)
unfolding all_emplaced
all_emplaced-AreFiled site m [] v w = w
all_emplaced-AreFiled site m ((k, p) ∷ ps) (h, v) w =
    all_emplaced-AreFiled site (try_emplace m p.name p) ps v (try_emplace-AreFiled site m p h.1 w)

pub passes : (b : Build) (s t : Bytes) → s ≡ t → require b (bytes_eq s t) ≡ ok tt
passes debug s t h = rw (h, bytes_eq_self t)
passes release s t h = refl

module _ {D T : Type 0} (b : Build) where
  -- Filed players of the same site are all taken in, in either build.
  add_players_lem :
      (s : Site D T) (ps : Players)
      → AreFiled s.name ps
      → add_players b s (map (λ e. e.1) ps) ≡ ok (record s { players = all_emplaced s.players ps })
  unfolding add_players add_player all_emplaced
  add_players_lem s [] v = refl
  add_players_lem s ((k, p) ∷ ps) (h, v) =
      rw (passes b p.site s.name h.1)
        (add_players_lem (record s { players = try_emplace s.players p.name p }) ps v)

  merged : Site D T → Site D T → Site D T
  merged s other = record s {
    players = all_emplaced s.players other.players;
    cash_games = s.cash_games ++ other.cash_games;
    tournaments = s.tournaments ++ other.tournaments;
  }

  merge_lem :
      (s other : Site D T)
      → other.name ≡ s.name
      → AreFiled s.name other.players
      → merge b s other ≡ ok (merged s other)
  unfolding merge merged
  merge_lem s other h v = rw (passes b other.name s.name h, add_players_lem s other.players v)

  -- Merging two sites of one name succeeds, in either build, if the players of both are filed under
  -- their names and that site. A player that both have is the one of the first site, any other is
  -- kept, the games of the other site follow those of the first, and the players stay filed.
  pub merge-players :
      (s other : Site D T)
      → other.name ≡ s.name
      → AreFiled s.name s.players
      → AreFiled s.name other.players
      → (t : Site D T) × (merge b s other ≡ ok t)
        × ((name : Bytes)
            → view_player t name ≡ or_else (view_player s name) (view_player other name))
        × (t.cash_games ≡ s.cash_games ++ other.cash_games)
        × (t.tournaments ≡ s.tournaments ++ other.tournaments)
        × AreFiled t.name t.players
  unfolding merged view_player
  merge-players s other h w v = (
    merged s other,
    merge_lem s other h v,
    λ name. find_player-all_emplaced s.name s.players other.players name v,
    refl,
    refl,
    all_emplaced-AreFiled s.name s.players other.players v w,
  )

-- A site of another name is refused by a debug build, whatever it holds.
pub merge_refuses :
    {D T : Type 0} (s other : Site D T)
    → other.name ≢ s.name
    → merge debug s other ≡ err assertion_failed
unfolding merge
merge_refuses s other h = elim (Bool-cases (bytes_eq other.name s.name)) [
  | inl e ↦ absurd (h (eq_of_bytes_eq _ _ e))
  | inr e ↦ rw e
]
