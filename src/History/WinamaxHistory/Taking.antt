-- ===== src/History/WinamaxHistory/Taking.antt =====
-- What the site takes in of the players that are left in the cache.
use phud.Prelude.{
  ◌≡◌, ◌≢◌, refl, sym, ◌∙◌, false, Option, none, some, List, [], ◌∷◌, Bytes, All, is_empty,
  bytes_eq, bytes_eq_self,
}
use phud.Prelude.Result.{ok, Build, debug, release, require}
use phud.Entities.Player.{Player}
use phud.Entities.Site.{Players, find_player, try_emplace, Site, add_players, add_player}
use phud.Entities.Site.Merging.{passes, or_else, find_player-try_emplace}
use phud.History.GameHistory.{winamax}

-- The players that a debug build takes in.
abbrev pub Fits : Build → List Player → Type 0
Fits release ps = Unit
Fits debug ps = All (λ p. p.site ≡ winamax) ps

pub is_empty-ne : (l : List Bytes) → l ≢ [] → is_empty l ≡ false
is_empty-ne [] h = absurd (h refl)
is_empty-ne (p ∷ l) h = refl

pub passes_self : (b : Build) (s : Bytes) → require b (bytes_eq s s) ≡ ok tt
passes_self debug s = rw (bytes_eq_self s)
passes_self release s = refl

-- The player of a name is there.
abbrev pub Has : Players → Bytes → Type 0
Has m name = find_player m name ≢ none

Has-try_emplace : (m : Players) (k j : Bytes) (p : Player) → Has m j → Has (try_emplace m k p) j
Has-try_emplace m k j p h =
    λ e. h (none_of (find_player m j) _ (sym (find_player-try_emplace m k j p) ∙ e))
  where
    none_of : (o o' : Option Player) → or_else o o' ≡ none → o ≡ none
    none_of none o' e = refl
    none_of (some q) o' e = cc

Has-try_emplace_self : (m : Players) (p : Player) → Has (try_emplace m p.name p) p.name
Has-try_emplace_self m p = λ e. absurd (
    some_of (find_player m p.name)
      (rw (bytes_eq_self p.name) at (sym (find_player-try_emplace m p.name p.name p) ∙ e)))
  where
    some_of : (o : Option Player) → or_else o (some p) ≡ none → ⊥
    some_of none e = cc
    some_of (some q) e = cc

add_player-Fits :
    {D T : Type 0} (b : Build) (s : Site D T) (p : Player) (ps : List Player)
    → s.name ≡ winamax
    → Fits b (p ∷ ps)
    → (add_player b s p ≡ ok (record s { players = try_emplace s.players p.name p })) × Fits b ps
unfolding add_player
add_player-Fits debug s p ps h f = (rw (passes debug p.site s.name (f.0 ∙ sym h)) refl, f.1)
add_player-Fits release s p ps h f = (refl, f)

-- What addPlayer makes of a site, one player after the other.
module _ {D T : Type 0} (b : Build) where
  pub record Took (s t : Site D T) (ps : List Player) : Type 0 where
    pub same_name : t.name ≡ s.name
    pub same_cash : t.cash_games ≡ s.cash_games
    pub same_tournaments : t.tournaments ≡ s.tournaments
    pub kept : (name : Bytes) → Has s.players name → Has t.players name
    pub taken : All (λ p. Has t.players p.name) ps

  pub add_players-Took :
      (s : Site D T) (ps : List Player)
      → s.name ≡ winamax
      → Fits b ps
      → (t : Site D T) × (add_players b s ps ≡ ok t) × Took s t ps
  unfolding add_players
  add_players-Took s [] h f = (
    s,
    refl,
    record {
      same_name = refl;
      same_cash = refl;
      same_tournaments = refl;
      kept = λ n k. k;
      taken = tt;
    },
  )
  add_players-Took s (p ∷ ps) h f =
      let (e, f') = add_player-Fits b s p ps h f in
      let s' : Site D T = record s { players = try_emplace s.players p.name p } in
      let (t, e', k) = add_players-Took s' ps h f' in
      (
        t,
        rw e e',
        record {
          same_name = k.same_name;
          same_cash = k.same_cash;
          same_tournaments = k.same_tournaments;
          kept = λ n x. k.kept n (Has-try_emplace s.players p.name n p x);
          taken = (k.kept p.name (Has-try_emplace_self s.players p), k.taken);
        },
      )
