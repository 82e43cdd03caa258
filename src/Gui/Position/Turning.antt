-- ===== src/Gui/Position/Turning.antt =====
-- The seats that rotateRelativeToHero (gui/Position.cpp) returns.
use native.Mathlib.Nat.{mod-eq_of_lt, mod-eq-sub-mod}
use phud.Prelude.{
  ℕ, suc, ◌+◌, ◌-◌, ◌%◌, ◌<◌, ◌≤◌, ◌≡◌, refl, sym, ◌∙◌, inl, inr, true, not, leb, ◌==◌,
  if◌then◌else◌, arith, Bool-cases,
}
use phud.Prelude.Result.{ok, Build, debug, release}
use phud.Prelude.Words.{pos}
use phud.Entities.Seat.{Seat, seat_one, to_array_index, to_int, from_int, seat_cast, seat_at}
use phud.Gui.Position.{rotate, rotate_relative_to_hero, add_int, sub_int}

from_int-suc : (b : Build) (n : ℕ) → n < 10 → from_int b (pos (suc n)) ≡ seat_cast n
unfolding from_int
from_int-suc debug n h = ground arith
from_int-suc release n h = refl

-- Where `s` stands seen from `h`, among `m` seats.
abbrev pub turned : ℕ → ℕ → ℕ → ℕ
turned s h m = if leb h s then s - h else s + m - h

turned-mod : (s h m : ℕ) → s < m → h < m → (s + (m - h)) % m ≡ turned s h m
turned-mod s h m l k = elim (Bool-cases (leb h s)) [
  | inl e ↦
      let n : s + (m - h) - m ≡ s - h = ground (arith, e) in
      let p : (s + (m - h)) % m ≡ (s + (m - h) - m) % m = mod-eq-sub-mod (ground (arith, e)) in
      let q : (s + (m - h) - m) % m ≡ s + (m - h) - m = mod-eq_of_lt (ground (arith, e)) in
      p ∙ q ∙ n ∙ rw e
  | inr e ↦
      let q : (s + (m - h)) % m ≡ s + (m - h) = mod-eq_of_lt (ground (arith, e)) in
      q ∙ ground (arith, e)
]

rotate_lem :
    (b : Build) (s h m : Seat)
    → to_array_index s ≤ to_array_index m
    → to_array_index h ≤ to_array_index m
    → to_array_index m < 10
    → rotate b s (add_int 1 (sub_int (to_int m) (to_int h))) m
      ≡ seat_cast (turned (to_array_index s) (to_array_index h) (to_array_index m + 1))
unfolding rotate to_int
rotate_lem b s h m l k t =
    let i = to_array_index s in
    let j = to_array_index h in
    let n = to_array_index m in
    let e : leb (j + 1) (n + 1) ≡ true = ground arith in
    let a : (i + 1 - 1) + (1 + (n + 1 - (j + 1))) ≡ i + (n + 1 - j) = omega arith in
    let c = turned-mod i j (n + 1) (omega arith) (omega arith) in
    let d : 1 + turned i j (n + 1) ≡ suc (turned i j (n + 1)) = omega arith in
    rw (e, a, c, d) (from_int-suc b (turned i j (n + 1)) (ground arith))

turned-back : (s h m : ℕ) → s < m → h < m → (turned s h m < m) × ((turned s h m + h) % m ≡ s)
turned-back s h m l k = elim (Bool-cases (leb h s)) [
  | inl e ↦
      let q : (s - h + h) % m ≡ s - h + h = mod-eq_of_lt (ground (arith, e)) in
      (ground (arith, e), rw e (q ∙ ground (arith, e)))
  | inr e ↦
      let n : s + m - h + h - m ≡ s = ground (arith, e) in
      let p : (s + m - h + h) % m ≡ (s + m - h + h - m) % m = mod-eq-sub-mod (ground (arith, e)) in
      let q : (s + m - h + h - m) % m ≡ s + m - h + h - m = mod-eq_of_lt (ground (arith, e)) in
      (ground (arith, e), rw e (p ∙ q ∙ n))
]

seat_cast-index : (s : Seat) → seat_cast (to_array_index s) ≡ ok s
unfolding seat_cast to_array_index
seat_cast-index seat_one = refl
seat_cast-index _ = refl

clicked :
    (b : Build) (s h m : Seat)
    → to_array_index s ≤ to_array_index m
    → to_array_index h ≤ to_array_index m
    → to_array_index m < 10
    → (if 0 == to_array_index h
        then ok s
        else rotate b s (add_int 1 (sub_int (to_int m) (to_int h))) m)
      ≡ seat_cast (turned (to_array_index s) (to_array_index h) (to_array_index m + 1))
clicked b s h m l k t = elim (Bool-cases (0 == to_array_index h)) [
  | inl e ↦
      let z : to_array_index h ≡ 0 = ground (arith, e) in
      let q : turned (to_array_index s) (to_array_index h) (to_array_index m + 1)
          ≡ to_array_index s =
        ground (arith, z) in
      rw (e, q) (sym (seat_cast-index s))
  | inr e ↦ rw e (rotate_lem b s h m l k t)
]

to_hero :
    (b : Build) (s h m : Seat)
    → to_array_index s ≤ to_array_index m
    → to_array_index h ≤ to_array_index m
    → to_array_index m < 10
    → rotate_relative_to_hero b s h m
      ≡ seat_cast (turned (to_array_index s) (to_array_index h) (to_array_index m + 1))
unfolding rotate_relative_to_hero
to_hero debug s h m l k t =
    let a : leb (to_array_index s) (to_array_index m) ≡ true = ground arith in
    let c : leb (to_array_index h) (to_array_index m) ≡ true = ground arith in
    let d : not (10 == to_array_index h) ≡ true = ground arith in
    let e : not (10 == to_array_index s) ≡ true = ground arith in
    let f : not (10 == to_array_index m) ≡ true = ground arith in
    rw (a, c, d, e, f) (clicked debug s h m l k t)
to_hero release s h m l k t = clicked release s h m l k t

-- rotateRelativeToHero of three seats of a table succeeds, in either build; the seat that comes out
-- is one of the table, and the seat that went in lies as many places behind it, around the table,
-- as the seat of the hero lies behind seat one.
pub rotate_relative_to_hero-turned :
    (b : Build) (s h m : Seat)
    → to_array_index s ≤ to_array_index m
    → to_array_index h ≤ to_array_index m
    → to_array_index m < 10
    → (r : Seat) × (rotate_relative_to_hero b s h m ≡ ok r)
      × (to_array_index r ≤ to_array_index m)
      × ((to_array_index r + to_array_index h) % to_int m ≡ to_array_index s)
unfolding to_int
rotate_relative_to_hero-turned b s h m l k t =
    let i = to_array_index s in
    let j = to_array_index h in
    let n = to_array_index m in
    let (a, c) = turned-back i j (n + 1) (omega arith) (omega arith) in
    let (r, e, d) = seat_at (turned i j (n + 1)) (omega arith) in
    (r, to_hero b s h m l k t ∙ e, omega arith, rw d c)
