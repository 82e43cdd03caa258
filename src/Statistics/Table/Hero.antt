-- ===== src/Statistics/Table/Hero.antt =====
-- getHeroSeat and extractPlayerStatistics (statistics/TableStatistics.cpp).
use phud.Prelude.{
  ℕ, zero, suc, ◌<◌, ◌≤◌, ◌≡◌, ◌≢◌, refl, inl, inr, ◌⊎◌, List, [], ◌∷◌, true, false, ◌==◌, Option,
  none, some, arith, Bool-cases, Option-cases, length, get_elem?, set, get_elem?-set_self,
  get_elem?-set_other,
}
use phud.Prelude.Result.{ok, Build}
use phud.Entities.Seat.{Seat, seat_unknown, to_array_index, from_array_index-lt}
use phud.Statistics.Player.{PlayerStatistics}
use phud.Statistics.Table.{
  TableStatistics, is_hero, hero_index, get_hero_seat, extract_player_statistics,
}

get_elem?-lt : {A : Type 0} (xs : List A) (i : ℕ) (x : A) → get_elem? xs i ≡ some x → i < length xs
get_elem?-lt [] i x h = cc
get_elem?-lt (y ∷ xs) zero x h = omega arith
get_elem?-lt (y ∷ xs) (suc i) x h = omega (arith, get_elem?-lt xs i x h)

get_elem?-there : {A : Type 0} (xs : List A) (i : ℕ) → i < length xs → get_elem? xs i ≢ none
get_elem?-there [] i l h = omega arith
get_elem?-there (y ∷ xs) zero l h = cc
get_elem?-there (y ∷ xs) (suc i) l h = get_elem?-there xs i (omega arith) h

module _ {D : Type 0} where
  -- What stands at the place of the first hero, and before it.
  hero_lem :
      (stats : List (Option (PlayerStatistics D)))
      → hero_index stats < length stats
      → (p : PlayerStatistics D) × (get_elem? stats (hero_index stats) ≡ some (some p))
        × (p.is_hero ≡ true)
  unfolding hero_index is_hero
  hero_lem [] h = absurd (omega arith)
  hero_lem (none ∷ stats) h = hero_lem stats (omega arith)
  hero_lem (some p ∷ stats) h = elim (Bool-cases p.is_hero) [
    | inl e ↦ (p, rw e refl, e)
    | inr e ↦ rw e (hero_lem stats (ground (arith, e)))
  ]

  before_lem :
      (stats : List (Option (PlayerStatistics D))) (i : ℕ) (p : PlayerStatistics D)
      → i < hero_index stats
      → get_elem? stats i ≡ some (some p)
      → p.is_hero ≡ false
  unfolding hero_index is_hero
  before_lem [] i p h e = absurd (omega arith)
  before_lem (none ∷ stats) zero p h e = cc
  before_lem (none ∷ stats) (suc i) p h e = before_lem stats i p (omega arith) e
  before_lem (some q ∷ stats) zero p h e = elim (Bool-cases q.is_hero) [
    | inl f ↦ ground (arith, f)
    | inr f ↦ ground (arith, f)
  ]
  before_lem (some q ∷ stats) (suc i) p h e = elim (Bool-cases q.is_hero) [
    | inl f ↦ ground (arith, f)
    | inr f ↦ before_lem stats i p (ground (arith, f)) e
  ]

  hero_index-le : (stats : List (Option (PlayerStatistics D))) → hero_index stats ≤ length stats
  unfolding hero_index
  hero_index-le [] = omega arith
  hero_index-le (p ∷ stats) = ground (arith, hero_index-le stats)

  none_lem :
      (stats : List (Option (PlayerStatistics D))) (i : ℕ) (p : PlayerStatistics D)
      → hero_index stats ≡ length stats
      → get_elem? stats i ≡ some (some p)
      → i < hero_index stats
  none_lem stats i p h e = rw h (get_elem?-lt stats i (some p) e)

  -- getHeroSeat of a table with ten seats is the seat of its first hero, and the unknown seat if
  -- there is no hero, in either build.
  pub get_hero_seat-first :
      (b : Build) (t : TableStatistics D)
      → length t.table_stats ≡ 10
      → ((get_hero_seat b t ≡ ok seat_unknown)
          × ((i : ℕ) (p : PlayerStatistics D)
              → get_elem? t.table_stats i ≡ some (some p)
              → p.is_hero ≡ false))
        ⊎ ((s : Seat) × (get_hero_seat b t ≡ ok s)
            × ((p : PlayerStatistics D) × (get_elem? t.table_stats (to_array_index s)
                  ≡ some (some p))
                × (p.is_hero ≡ true))
            × ((i : ℕ) (p : PlayerStatistics D)
                → i < to_array_index s
                → get_elem? t.table_stats i ≡ some (some p)
                → p.is_hero ≡ false))
  unfolding get_hero_seat
  get_hero_seat-first b t l =
      let stats = t.table_stats in
      elim (Bool-cases (hero_index stats == length stats)) [
        | inl e ↦
            let h : hero_index stats ≡ length stats = ground (arith, e) in
            inl (rw e refl, λ i p g. before_lem stats i p (none_lem stats i p h g) g)
        | inr e ↦
            let h : hero_index stats < length stats = ground (arith, e, hero_index-le stats) in
            let (s, q, n) = from_array_index-lt b (hero_index stats) (omega arith) in
            inr
              (s, rw e q, rw n (hero_lem stats h), λ i p k g. before_lem stats i p (omega arith) g)
      ]

  -- extractPlayerStatistics of a known seat of a table with ten seats hands out what stands there,
  -- leaves nothing there, and leaves the other places alone.
  pub extract_player_statistics-takes :
      (t : TableStatistics D) (s : Seat)
      → length t.table_stats ≡ 10
      → to_array_index s < 10
      → (p : Option (PlayerStatistics D)) × (u : TableStatistics D) × (extract_player_statistics t s
          ≡ ok (p, u))
        × (get_elem? t.table_stats (to_array_index s) ≡ some p)
        × (get_elem? u.table_stats (to_array_index s) ≡ some none)
        × ((j : ℕ) → to_array_index s ≢ j → get_elem? u.table_stats j ≡ get_elem? t.table_stats j)
  unfolding extract_player_statistics
  extract_player_statistics-takes t s l h =
      elim (Option-cases (get_elem? t.table_stats (to_array_index s))) [
        | inl e ↦ absurd (get_elem?-there t.table_stats (to_array_index s) (omega arith) e)
        | inr (p, e) ↦ (
          p,
          record t { table_stats = set t.table_stats (to_array_index s) none },
          rw (e, extract_player_statistics) refl,
          e,
          get_elem?-set_self t.table_stats (to_array_index s) none (omega arith),
          λ j n. get_elem?-set_other t.table_stats (to_array_index s) j none n,
        )
      ]
