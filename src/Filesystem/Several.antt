-- ===== src/Filesystem/Several.antt =====
-- A pattern with a star inside has several parts, so it is not one part behind a star.
use phud.Prelude.{
  ℕ, ◌≡◌, ◌≢◌, refl, sym, ap, ◌∙◌, subst, inl, inr, Bool, false, not, ◌&&◌, List, [], ◌∷◌, ◌++◌,
  Bytes, length, arith, ◌==◌, Bool-cases,
}
use phud.Text.{starts_with, ends_with}
use phud.Filesystem.Patterns.{star, stars}
use phud.Filesystem.Parts.{pieces, pieces-star, pieces-other, split_pattern-pieces}
use phud.Filesystem.Matching.{pieces_ne}
use phud.Filesystem.Kinds.{is_lone_suffix}

abbrev AtLeastOne : List Bytes → Type 0
AtLeastOne ps = (a : Bytes) × (l : List Bytes) × (ps ≡ a ∷ l)

AtLeastOne-ne : (ps : List Bytes) → ps ≢ [] → AtLeastOne ps
AtLeastOne-ne [] h = absurd (h refl)
AtLeastOne-ne (a ∷ l) h = (a, l, refl)

ne_false : (d : ℕ) → d ≢ star → (d == star) ≡ false
ne_false d h = ground (arith, h)

begun : (d : ℕ) (q : Bytes) → d ≢ star → AtLeastOne (pieces [] (d ∷ q))
begun d q n =
    subst AtLeastOne (sym (pieces-other [] d q (ne_false d n)))
      (AtLeastOne-ne (pieces (d ∷ []) q) (pieces_ne d [] q))

some_piece :
    (w : Bytes) (d : ℕ) (q : Bytes) → d ≢ star → AtLeastOne (pieces [] (w ++ (star ∷ d ∷ q)))
some_piece [] d q n = subst AtLeastOne (sym (pieces-star [] star (d ∷ q) refl)) (begun d q n)
some_piece (b ∷ w) d q n =
    let t = w ++ (star ∷ d ∷ q) in
    elim (Bool-cases (b == star)) [
      | inl e ↦ subst AtLeastOne (sym (pieces-star [] b t e)) (some_piece w d q n)
      | inr e ↦
          subst AtLeastOne (sym (pieces-other [] b t e))
            (AtLeastOne-ne (pieces (b ∷ []) t) (pieces_ne b [] t))
    ]

abbrev Several : List Bytes → Type 0
Several ps = (length ps == 1) ≡ false

Several-cons : (a : Bytes) (ps : List Bytes) → AtLeastOne ps → Several (a ∷ ps)
Several-cons a ps (b, l, e) = ap (λ u. length (a ∷ u) == 1) e ∙ ground arith

two_pieces :
    (c : ℕ) (part w : Bytes) (d : ℕ) (q : Bytes)
    → d ≢ star
    → Several (pieces (c ∷ part) (w ++ (star ∷ d ∷ q)))
two_pieces c part [] d q n =
    subst Several (sym (pieces-star (c ∷ part) star (d ∷ q) refl))
      (Several-cons (c ∷ part) (pieces [] (d ∷ q)) (begun d q n))
two_pieces c part (b ∷ w) d q n =
    let t = w ++ (star ∷ d ∷ q) in
    elim (Bool-cases (b == star)) [
      | inl e ↦
          subst Several (sym (pieces-star (c ∷ part) b t e))
            (Several-cons (c ∷ part) (pieces [] t) (some_piece w d q n))
      | inr e ↦
          subst Several (sym (pieces-other (c ∷ part) b t e))
            (two_pieces c (part ++ (b ∷ [])) w d q n)
    ]

-- A star, a part, and then a star with a part behind it.
pub is_lone_suffix-two_parts :
    (c : ℕ) (w : Bytes) (d : ℕ) (q : Bytes)
    → c ≢ star
    → d ≢ star
    → is_lone_suffix (star ∷ c ∷ (w ++ (star ∷ d ∷ q))) ≡ false
is_lone_suffix-two_parts c w d q m n =
    let t = w ++ (star ∷ d ∷ q) in
    let parts =
      split_pattern-pieces (star ∷ c ∷ t)
      ∙ (pieces-star [] star (c ∷ t) refl ∙ pieces-other [] c t (ne_false c m)) in
    let several = subst Several (sym parts) (two_pieces c [] w d q n) in
    and_false (starts_with (star ∷ c ∷ t) stars) (not (ends_with (star ∷ c ∷ t) stars)) several
  where
    and_false : (x y : Bool) {z : Bool} → z ≡ false → (x && y && z) ≡ false
    and_false x y h = rw h (ground arith)
