-- ===== src/Threads/PlayerCache/Sharing.antt =====
-- One run on two player caches (threads/PlayerCache.cpp): its own, and one in which others have added
-- players too.
use phud.Prelude.{
  ◌≡◌, refl, sym, ap, ◌∙◌, inl, inr, true, false, not, ◌||◌, Option, none, some, is_empty, [], ◌∷◌,
  Bytes, bytes_eq, arith, Bool-cases,
}
use phud.Prelude.Result.{
  Error, assertion_failed, invalid_argument, out_of_range, phud_exception, time_exception,
  undefined_behaviour, unnamed_value, out_of_fuel, Result, ok, err, ◌>>=◌, ◌>>◌, Build, debug,
  release, require, Result-cases,
}
use phud.Entities.Player.{Player, new_player}
use phud.Entities.Site.{Players, find_player}
use phud.Threads.PlayerCache.{
  PlayerCache, compare_bytes, emplace, mark_hero, is_there, at_end, set_hero, add_if_missing,
}
use phud.Threads.PlayerCache.Order.{
  eq_of_compare, Ordering-cases, emplace_lt, emplace_eq, emplace_gt,
}
use phud.Threads.PlayerCache.Laws.{Inv, call-Inv, adds, heroes}

-- A run that ends without an exception that a handler could catch.
abbrev pub IsAbort : Error → Type 0
IsAbort assertion_failed = Unit
IsAbort undefined_behaviour = Unit
IsAbort unnamed_value = Unit
IsAbort out_of_fuel = Unit
IsAbort invalid_argument = ⊥
IsAbort out_of_range = ⊥
IsAbort phud_exception = ⊥
IsAbort time_exception = ⊥

-- A second run that ends like the first, with related values, wherever the first does not abort.
pub data Follows {V W : Type 0} (R : V → W → Type 0) : Result V → Result W → Type 0 where
  same : {v : V} {w : W} → R v w → Follows R (ok v) (ok w)
  thrown : {e : Error} → Follows R (err e) (err e)
  aborted : {e : Error} {r : Result W} → IsAbort e → Follows R (err e) r

pub Follows-bind :
    {V W X Y : Type 0} {R : V → W → Type 0} {S : X → Y → Type 0} {r : Result V} {t : Result W}
    {f : V → Result X} {g : W → Result Y}
    → Follows R r t
    → ((v : V) (w : W) → R v w → Follows S (f v) (g w))
    → Follows S (r >>= f) (t >>= g)
Follows-bind (same {v} {w} x) h = h v w x
Follows-bind thrown h = thrown
Follows-bind (aborted a) h = aborted a

-- A step that both runs make.
pub Follows-step :
    {V X Y : Type 0} {S : X → Y → Type 0} (r : Result V) {f : V → Result X} {g : V → Result Y}
    → ((v : V) → Follows S (f v) (g v))
    → Follows S (r >>= f) (r >>= g)
Follows-step (ok v) h = h v
Follows-step (err e) h = thrown

-- A name of the cache.
abbrev pub Knows : Players → Bytes → Type 0
Knows m n = is_there (find_player m n) ≡ true

is_there-emplace :
    (k n : Bytes) (p : Player) (m : Players)
    → is_there (find_player (emplace m k p) n) ≡ (bytes_eq k n || is_there (find_player m n))
unfolding find_player
is_there-emplace k n p [] = unfold emplace in (ground arith)
is_there-emplace k n p ((j, q) ∷ m) = elim (Ordering-cases (compare_bytes k j)) [
  | inl e ↦ rw (emplace_lt j k p q m e) (ground arith)
  | inr (inl e) ↦ rw (emplace_eq j k p q m e) (ground (arith, eq_of_compare k j e))
  | inr (inr e) ↦ rw (emplace_gt j k p q m e) (ground (arith, is_there-emplace k n p m))
]

is_there-mark_hero :
    (k n : Bytes) (m : Players)
    → is_there (find_player (mark_hero m k) n) ≡ is_there (find_player m n)
unfolding find_player mark_hero
is_there-mark_hero k n [] = refl
is_there-mark_hero k n ((j, q) ∷ m) = ground (arith, is_there-mark_hero k n m)

-- `c` is the cache of the first run; `d` is that of the second, which began with `start`.
pub record Near (start c d : PlayerCache) : Type 0 where
  pub under : (n : Bytes) → Knows c.players n → Knows d.players n
  pub alike : c.site_name ≡ d.site_name
  pub grew : (n : Bytes) → Knows start.players n → Knows d.players n
  pub site : d.site_name ≡ start.site_name
  pub kept : Inv start → Inv d

Near-emplace :
    (s c d : PlayerCache) (n : Bytes) (p q : Player)
    → Near s c d
    → (Inv d → Inv (record d { players = emplace d.players n q }))
    → Near s
        (record c { players = emplace c.players n p })
        (record d { players = emplace d.players n q })
Near-emplace s c d n p q v k = record {
  under = λ j h.
      ground
        (arith, h, v.under j, is_there-emplace n j p c.players, is_there-emplace n j q d.players);
  alike = v.alike;
  grew = λ j h. ground (arith, v.grew j h, is_there-emplace n j q d.players);
  site = v.site;
  kept = λ i. k (v.kept i);
}

Near-mark_hero :
    (s c d : PlayerCache) (n : Bytes)
    → Near s c d
    → (Inv d → Inv (record d { players = mark_hero d.players n }))
    → Near s
        (record c { players = mark_hero c.players n })
        (record d { players = mark_hero d.players n })
Near-mark_hero s c d n v k = record {
  under = λ j h.
      is_there-mark_hero n j d.players ∙ v.under j (sym (is_there-mark_hero n j c.players) ∙ h);
  alike = v.alike;
  grew = λ j h. is_there-mark_hero n j d.players ∙ v.grew j h;
  site = v.site;
  kept = λ i. k (v.kept i);
}

set_hero-found :
    (b : Build) (c : PlayerCache) (n : Bytes)
    → Knows c.players n
    → set_hero b c n ≡ ok (record c { players = mark_hero c.players n })
unfolding set_hero
set_hero-found b c n h = at_found b (find_player c.players n) h
  where
    at_found :
        (b : Build) (o : Option Player) {x : PlayerCache}
        → is_there o ≡ true
        → ((require b (is_there o)) >> at_end o x) ≡ ok x
    at_found b none h = cc
    at_found debug (some p) h = refl
    at_found release (some p) h = refl

set_hero_missing :
    (b : Build) (c : PlayerCache) (n : Bytes)
    → is_there (find_player c.players n) ≡ false
    → (e : Error) × IsAbort e × (set_hero b c n ≡ err e)
unfolding set_hero
set_hero_missing b c n h = at_missing b (find_player c.players n) _ h
  where
    at_missing :
        (b : Build) (o : Option Player) (x : PlayerCache)
        → is_there o ≡ false
        → (e : Error) × IsAbort e × (((require b (is_there o)) >> at_end o x) ≡ err e)
    at_missing b (some p) x h = cc
    at_missing debug none x h = (assertion_failed, tt, refl)
    at_missing release none x h = (undefined_behaviour, tt, refl)

abbrev player_of : PlayerCache → Bytes → Player
player_of c n = record { name = n; site = c.site_name; comments = []; is_hero = false }

-- addIfMissing succeeds or fails by the name and the site alone.
add_if_missing-cases :
    (b : Build) (c : PlayerCache) (n : Bytes)
    → (add_if_missing b c n ≡ (
        require b (not (is_empty n)) >>= λ x. require b (not (is_empty c.site_name)) >>= λ y.
        ok (record c { players = emplace c.players n (player_of c n) })))
unfolding add_if_missing new_player
add_if_missing-cases release c n = refl
add_if_missing-cases debug c n = elim (Bool-cases (is_empty n)) [
  | inl e ↦ rw e refl
  | inr e ↦
      rw e (elim (Bool-cases (is_empty c.site_name)) [ inl f ↦ rw f refl | inr f ↦ rw f refl ])
]

module _ (b : Build) (s c d : PlayerCache) (n : Bytes) (v : Near s c d) where
  added :
      Follows
        (Near s)
        (require b (not (is_empty n)) >>= λ x. require b (not (is_empty c.site_name)) >>= λ y.
          ok (record c { players = emplace c.players n (player_of c n) }))
        (require b (not (is_empty n)) >>= λ x. require b (not (is_empty d.site_name)) >>= λ y.
          ok (record d { players = emplace d.players n (player_of d n) }))
  added = elim (Result-cases (require b (not (is_empty n)))) [
    | inr (e, p) ↦ rw p thrown
    | inl (x, p) ↦
        let same_test : require b (not (is_empty c.site_name))
            ≡ require b (not (is_empty d.site_name)) =
          ap (λ u. require b (not (is_empty u))) v.alike in
        elim (Result-cases (require b (not (is_empty d.site_name)))) [
          | inr (e, q) ↦ rw (p, same_test, q) thrown
          | inl (y, q) ↦
              rw (p, same_test, q)
                (same (
                  Near-emplace s c d n (player_of c n) (player_of d n) v
                    (λ i. call-Inv b d _ (adds n) i (add_if_missing-cases b d n ∙ rw (p, q) refl))))
        ]
  ]

  pub add_if_missing-Near : Follows (Near s) (add_if_missing b c n) (add_if_missing b d n)
  add_if_missing-Near = rw (add_if_missing-cases b c n, add_if_missing-cases b d n) added

  pub set_hero-Near : Follows (Near s) (set_hero b c n) (set_hero b d n)
  set_hero-Near = elim (Bool-cases (is_there (find_player c.players n))) [
    | inl e ↦
        let f = set_hero-found b d n (v.under n e) in
        rw (set_hero-found b c n e, f)
          (same (Near-mark_hero s c d n v (λ i. call-Inv b d _ (heroes n) i f)))
    | inr e ↦ let (x, a, f) = set_hero_missing b c n e in rw f (aborted a)
  ]
