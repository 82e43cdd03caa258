-- ===== src/Threads/PlayerCache/Order.antt =====
-- Players in the rising order of their names, and what inserting, marking and erasing do to it.
use Prim.Native.Nat.{Ordering}
use phud.Prelude.{
  ◌≡◌, refl, [], ◌∷◌, Bytes, bytes_eq, Option, none, some, if◌then◌else◌, arith, eq_of_bytes_eq,
  bytes_eq_self, All, inl, inr, ◌⊎◌, Bool-cases,
}
use phud.Entities.Player.{Player}
use phud.Entities.Site.{Players, find_player}
use phud.Entities.Site.Merging.{AreFiled, or_else}
use phud.Threads.PlayerCache.{compare_bytes, emplace, mark_hero, erase_key}

pub eq_of_compare : (s t : Bytes) → compare_bytes s t ≡ Ordering.eq → s ≡ t
unfolding compare_bytes
eq_of_compare [] [] h = refl
eq_of_compare [] (d ∷ t) h = cc
eq_of_compare (c ∷ s) [] h = cc
eq_of_compare (c ∷ s) (d ∷ t) h = ground (arith, eq_of_compare s t)

compare_self : (s : Bytes) → compare_bytes s s ≡ Ordering.eq
unfolding compare_bytes
compare_self [] = refl
compare_self (c ∷ s) = ground (arith, compare_self s)

pub Ordering-cases : (o : Ordering) → (o ≡ Ordering.lt) ⊎ ((o ≡ Ordering.eq) ⊎ (o ≡ Ordering.gt))
Ordering-cases Ordering.lt = inl refl
Ordering-cases Ordering.eq = inr (inl refl)
Ordering-cases Ordering.gt = inr (inr refl)

or_none : (o : Option Player) → or_else o none ≡ o
or_none none = refl
or_none (some p) = refl

flip : (s t : Bytes) → compare_bytes s t ≡ Ordering.gt → compare_bytes t s ≡ Ordering.lt
unfolding compare_bytes
flip [] [] h = cc
flip [] (d ∷ t) h = cc
flip (c ∷ s) [] h = refl
flip (c ∷ s) (d ∷ t) h = ground (arith, flip s t)

lt_trans :
    (s t u : Bytes)
    → compare_bytes s t ≡ Ordering.lt
    → compare_bytes t u ≡ Ordering.lt
    → compare_bytes s u ≡ Ordering.lt
unfolding compare_bytes
lt_trans [] [] u h k = cc
lt_trans [] (d ∷ t) [] h k = cc
lt_trans [] (d ∷ t) (e ∷ u) h k = refl
lt_trans (c ∷ s) [] u h k = cc
lt_trans (c ∷ s) (d ∷ t) [] h k = cc
lt_trans (c ∷ s) (d ∷ t) (e ∷ u) h k = ground (arith, lt_trans s t u)

-- All keys of the list come behind `k`.
abbrev pub Below : Bytes → Players → Type 0
Below k = All (λ e. compare_bytes k e.0 ≡ Ordering.lt)

-- The keys rise, so no name stands twice.
abbrev pub Rises : Players → Type 0
Rises [] = Unit
Rises ((k, p) ∷ m) = Below k m × Rises m

Below-lt : (k j : Bytes) (m : Players) → compare_bytes k j ≡ Ordering.lt → Below j m → Below k m
Below-lt k j [] h b = tt
Below-lt k j ((i, q) ∷ m) h b = (lt_trans k j i h b.0, Below-lt k j m h b.1)

find-Below : (k : Bytes) (m : Players) → Below k m → find_player m k ≡ none
unfolding find_player
find-Below k [] b = refl
find-Below k ((j, q) ∷ m) b = ground (arith, find-Below k m b.1, eq_of_bytes_eq j k, compare_self k)

module _ (j k : Bytes) (p q : Player) (m : Players) where
  pub emplace_lt : compare_bytes k j ≡ Ordering.lt → emplace ((j, q) ∷ m) k p ≡ (k, p) ∷ (j, q) ∷ m
  unfolding emplace
  emplace_lt e = rw (e, emplace)

  pub emplace_eq : compare_bytes k j ≡ Ordering.eq → emplace ((j, q) ∷ m) k p ≡ (j, q) ∷ m
  unfolding emplace
  emplace_eq e = rw (e, emplace)

  pub emplace_gt :
      compare_bytes k j ≡ Ordering.gt → emplace ((j, q) ∷ m) k p ≡ (j, q) ∷ emplace m k p
  unfolding emplace
  emplace_gt e = rw (e, emplace)

emplace-Below :
    (i k : Bytes) (p : Player) (m : Players)
    → compare_bytes i k ≡ Ordering.lt
    → Below i m
    → Below i (emplace m k p)
emplace-Below i k p [] h b = unfold emplace in (h, tt)
emplace-Below i k p ((j, q) ∷ m) h b = elim (Ordering-cases (compare_bytes k j)) [
  | inl e ↦ rw (emplace_lt j k p q m e) (h, b)
  | inr (inl e) ↦ rw (emplace_eq j k p q m e) b
  | inr (inr e) ↦ rw (emplace_gt j k p q m e) (b.0, emplace-Below i k p m h b.1)
]

pub emplace-Rises : (k : Bytes) (p : Player) (m : Players) → Rises m → Rises (emplace m k p)
emplace-Rises k p [] r = unfold emplace in (tt, tt)
emplace-Rises k p ((j, q) ∷ m) r = elim (Ordering-cases (compare_bytes k j)) [
  | inl e ↦ rw (emplace_lt j k p q m e) ((e, Below-lt k j m e r.0), r)
  | inr (inl e) ↦ rw (emplace_eq j k p q m e) r
  | inr (inr e) ↦
      rw (emplace_gt j k p q m e) (emplace-Below j k p m (flip k j e) r.0, emplace-Rises k p m r.1)
]

pub emplace-AreFiled :
    (site k : Bytes) (p : Player) (m : Players)
    → k ≡ p.name
    → p.site ≡ site
    → AreFiled site m
    → AreFiled site (emplace m k p)
emplace-AreFiled site k p [] n h f = unfold emplace in ((n, h), tt)
emplace-AreFiled site k p ((j, q) ∷ m) n h f = elim (Ordering-cases (compare_bytes k j)) [
  | inl e ↦ rw (emplace_lt j k p q m e) ((n, h), f)
  | inr (inl e) ↦ rw (emplace_eq j k p q m e) f
  | inr (inr e) ↦ rw (emplace_gt j k p q m e) (f.0, emplace-AreFiled site k p m n h f.1)
]

-- What is found after an insertion: what was there, and else the new player under his name.
pub find-emplace :
    (k j : Bytes) (p : Player) (m : Players)
    → Rises m
    → find_player (emplace m k p) j
      ≡ or_else (find_player m j) (if bytes_eq k j then some p else none)
unfolding find_player
find-emplace k j p [] r = unfold emplace in refl
find-emplace k j p ((i, q) ∷ m) r = elim (Ordering-cases (compare_bytes k i)) [
  | inl e ↦ rw (emplace_lt i k p q m e) (
      ground (
        arith,
        find-Below k m (Below-lt k i m e r.0),
        eq_of_bytes_eq k j,
        eq_of_bytes_eq i j,
        compare_self k,
        or_none (find_player m j),
      ))
  | inr (inl e) ↦
      rw (emplace_eq i k p q m e)
        (ground (arith, eq_of_compare k i e, or_none (find_player m j), bytes_eq_self i))
  | inr (inr e) ↦ rw (emplace_gt i k p q m e) (ground (arith, find-emplace k j p m r.1))
]

mark_hero-Below : (i k : Bytes) (m : Players) → Below i m → Below i (mark_hero m k)
unfolding mark_hero
mark_hero-Below i k [] b = tt
mark_hero-Below i k ((j, q) ∷ m) b = elim (Bool-cases (bytes_eq j k)) [
  | inl e ↦ rw e b
  | inr e ↦ rw e (b.0, mark_hero-Below i k m b.1)
]

pub mark_hero-Rises : (k : Bytes) (m : Players) → Rises m → Rises (mark_hero m k)
unfolding mark_hero
mark_hero-Rises k [] r = tt
mark_hero-Rises k ((j, q) ∷ m) r = elim (Bool-cases (bytes_eq j k)) [
  | inl e ↦ rw e r
  | inr e ↦ rw e (mark_hero-Below j k m r.0, mark_hero-Rises k m r.1)
]

pub mark_hero-AreFiled :
    (site k : Bytes) (m : Players) → AreFiled site m → AreFiled site (mark_hero m k)
unfolding mark_hero
mark_hero-AreFiled site k [] f = tt
mark_hero-AreFiled site k ((j, q) ∷ m) f = elim (Bool-cases (bytes_eq j k)) [
  | inl e ↦ rw e f
  | inr e ↦ rw e (f.0, mark_hero-AreFiled site k m f.1)
]

erase-Below : (i k : Bytes) (m : Players) → Below i m → Below i (erase_key m k)
unfolding erase_key
erase-Below i k [] b = tt
erase-Below i k ((j, q) ∷ m) b = elim (Bool-cases (bytes_eq j k)) [
  | inl e ↦ rw e b.1
  | inr e ↦ rw e (b.0, erase-Below i k m b.1)
]

pub erase-Rises : (k : Bytes) (m : Players) → Rises m → Rises (erase_key m k)
unfolding erase_key
erase-Rises k [] r = tt
erase-Rises k ((j, q) ∷ m) r = elim (Bool-cases (bytes_eq j k)) [
  | inl e ↦ rw e r.1
  | inr e ↦ rw e (erase-Below j k m r.0, erase-Rises k m r.1)
]

pub erase-AreFiled :
    (site k : Bytes) (m : Players) → AreFiled site m → AreFiled site (erase_key m k)
unfolding erase_key
erase-AreFiled site k [] f = tt
erase-AreFiled site k ((j, q) ∷ m) f = elim (Bool-cases (bytes_eq j k)) [
  | inl e ↦ rw e f.1
  | inr e ↦ rw e (f.0, erase-AreFiled site k m f.1)
]
