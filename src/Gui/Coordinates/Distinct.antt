-- ===== src/Gui/Coordinates/Distinct.antt =====
-- The places of a table's seats (gui/Position.cpp).
use phud.Prelude.{
  ℕ, zero, suc, ◌≤◌, ◌<◌, ◌≡◌, ◌≢◌, refl, sym, ap, ◌∙◌, subst, Bool, true, not, ◌&&◌, ◌==◌, leb,
  Option, none, some, [], ◌∷◌, get_elem?, take, length, arith,
}
use phud.Prelude.Result.{Result, ok, err, out_of_range, ◌>>=◌, Build}
use phud.Entities.Seat.{
  Seat, seat_one, seat_two, seat_three, seat_four, seat_five, seat_six, seat_seven, seat_eight,
  seat_nine, seat_ten, seat_unknown, to_array_index,
}
use phud.Gui.Coordinates.{Row, coefficients, coefficient, row_of, at}

-- `p` stands nowhere in the row.
abbrev lacks : ℕ × ℕ → Row → Bool
lacks p [] = true
lacks p (q ∷ row) = not (p.0 == q.0 && p.1 == q.1) && lacks p row

abbrev distinct : Row → Bool
distinct [] = true
distinct (p ∷ row) = lacks p row && distinct row

abbrev within : Row → Bool
within [] = true
within (p ∷ row) = leb p.0 10000 && (leb p.1 10000 && within row)

-- The row of a table holds a place in the window for each of its seats, and no place twice.
Fits : Seat → Row → Type 0
Fits m row =
    let used = take (suc (to_array_index m)) row in
    (length row ≡ 10) × (distinct used ≡ true) × (within used ≡ true)

-- What holds of the row that is found holds of the row that is asked about.
Fits-some : (m : Seat) (found row : Row) → Fits m found → some found ≡ some row → Fits m row
Fits-some m found row f e = subst (Fits m) (ap (λ o. elim o [ none ↦ found | some r ↦ r ]) e) f

coefficients-Fits : (m : Seat) (row : Row) → coefficients m ≡ some row → Fits m row
unfolding Fits coefficients to_array_index
coefficients-Fits seat_one row h = cc
coefficients-Fits seat_two row h = Fits-some seat_two _ row (refl, refl, refl) h
coefficients-Fits seat_three row h = Fits-some seat_three _ row (refl, refl, refl) h
coefficients-Fits seat_four row h = Fits-some seat_four _ row (refl, refl, refl) h
coefficients-Fits seat_five row h = Fits-some seat_five _ row (refl, refl, refl) h
coefficients-Fits seat_six row h = Fits-some seat_six _ row (refl, refl, refl) h
coefficients-Fits seat_seven row h = Fits-some seat_seven _ row (refl, refl, refl) h
coefficients-Fits seat_eight row h = Fits-some seat_eight _ row (refl, refl, refl) h
coefficients-Fits seat_nine row h = Fits-some seat_nine _ row (refl, refl, refl) h
coefficients-Fits seat_ten row h = Fits-some seat_ten _ row (refl, refl, refl) h
coefficients-Fits seat_unknown row h = cc

lacks-ne : (p q : ℕ × ℕ) (row : Row) (i : ℕ) → lacks p row ≡ true → get_elem? row i ≡ some q → p ≢ q
lacks-ne p q [] i l e = absurd (ground (arith, e))
lacks-ne p q (r ∷ row) zero l e = λ same. absurd (ground (arith, l, e, same))
lacks-ne p q (r ∷ row) (suc i) l e = lacks-ne p q row i (ground (arith, l)) e

distinct-eq :
    (row : Row) (i j : ℕ) (p : ℕ × ℕ)
    → distinct row ≡ true
    → get_elem? row i ≡ some p
    → get_elem? row j ≡ some p
    → i ≡ j
distinct-eq [] i j p d e f = absurd (ground (arith, e))
distinct-eq (r ∷ row) zero zero p d e f = refl
distinct-eq (r ∷ row) zero (suc j) p d e f =
    absurd (lacks-ne r p row j (ground (arith, d)) f (ground (arith, e)))
distinct-eq (r ∷ row) (suc i) zero p d e f =
    absurd (lacks-ne r p row i (ground (arith, d)) e (ground (arith, f)))
distinct-eq (r ∷ row) (suc i) (suc j) p d e f =
    ap suc (distinct-eq row i j p (ground (arith, d)) e f)

get_elem?-take : (n i : ℕ) (row : Row) → i < n → get_elem? (take n row) i ≡ get_elem? row i
get_elem?-take zero i row h = absurd (omega arith)
get_elem?-take (suc n) i [] h = refl
get_elem?-take (suc n) zero (p ∷ row) h = refl
get_elem?-take (suc n) (suc i) (p ∷ row) h = get_elem?-take n i row (omega arith)

within-le :
    (row : Row) (i : ℕ) (p : ℕ × ℕ)
    → within row ≡ true
    → get_elem? row i ≡ some p
    → (p.0 ≤ 10000) × (p.1 ≤ 10000)
within-le [] i p w e = absurd (ground (arith, e))
within-le (r ∷ row) zero p w e = ground (arith, w, e)
within-le (r ∷ row) (suc i) p w e = within-le row i p (ground (arith, w)) e

get_elem?-some : (row : Row) (i : ℕ) → i < length row → (p : ℕ × ℕ) × (get_elem? row i ≡ some p)
get_elem?-some [] i h = absurd (omega arith)
get_elem?-some (r ∷ row) zero h = (r, refl)
get_elem?-some (r ∷ row) (suc i) h = get_elem?-some row i (omega arith)

index-le : (m : Seat) (row : Row) → coefficients m ≡ some row → to_array_index m < 10
unfolding coefficients to_array_index
index-le seat_unknown row h = cc
index-le _ row h = omega arith

coefficient-eq :
    (b : Build) (m : Seat) (row : Row)
    → coefficients m ≡ some row
    → (a : Seat) (p : ℕ × ℕ) → get_elem? row (to_array_index a) ≡ some p
    → coefficient b a m ≡ ok p
unfolding coefficient
coefficient-eq b m row known a p e =
    ap (λ o. row_of b o >>= λ r. at r (to_array_index a)) known
    ∙ ap
        (λ (o : Option (ℕ × ℕ)). elim o as (λ x. Result (ℕ × ℕ)) [
          | none ↦ err out_of_range
          | some q ↦ ok q
        ])
        e

-- The place of a seat of a known table.
module _ (b : Build) (m : Seat) (row : Row) (known : coefficients m ≡ some row) (a : Seat)
    (l : to_array_index a ≤ to_array_index m) where
  pub place :
      (p : ℕ × ℕ) × (coefficient b a m ≡ ok p)
      × (get_elem? (take (suc (to_array_index m)) row) (to_array_index a) ≡ some p)
  unfolding coefficient Fits
  place =
      let f = coefficients-Fits m row known in
      let (p, e) =
        get_elem?-some row (to_array_index a) (omega (arith, l, f.0, index-le m row known)) in
      (
        p,
        coefficient-eq b m row known a p e,
        get_elem?-take (suc (to_array_index m)) (to_array_index a) row (omega (arith, l)) ∙ e,
      )

-- On a table of a size that the map knows each seat up to the last has a place inside the window,
-- in either build, and two seats that have one place are one seat.
pub coefficient_places :
    (b : Build) (m : Seat) (row : Row)
    → coefficients m ≡ some row
    → (a c : Seat) → to_array_index a ≤ to_array_index m
    → to_array_index c ≤ to_array_index m
    → (p q : ℕ × ℕ) × (coefficient b a m ≡ ok p)
      × (coefficient b c m ≡ ok q)
      × (p.0 ≤ 10000)
      × (p.1 ≤ 10000)
      × (p ≡ q → to_array_index a ≡ to_array_index c)
unfolding Fits
coefficient_places b m row known a c l k =
    let f = coefficients-Fits m row known in
    let used = take (suc (to_array_index m)) row in
    let (p, e, g) = place b m row known a l in
    let (q, e', g') = place b m row known c k in
    let w = within-le used (to_array_index a) p f.2 g in
    (
      p,
      q,
      e,
      e',
      w.0,
      w.1,
      λ same.
          distinct-eq used (to_array_index a) (to_array_index c) p f.1 g (g' ∙ ap some (sym same)),
    )
