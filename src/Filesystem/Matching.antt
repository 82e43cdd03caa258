-- ===== src/Filesystem/Matching.antt =====
-- The file name matcher decides the relation of Glob.
use phud.Prelude.{
  ℕ, ◌+◌, ◌≡◌, ◌≢◌, ◌↔◌, refl, sym, ap, ◌∙◌, subst, inl, inr, Bool, true, false, none, some, List,
  [], ◌∷◌, ◌++◌, append-nil, append_assoc, Bytes, All-append, length, drop, eq_of_==, arith, ◌==◌,
  Bool-cases, Option-cases, reverse,
}
use mathlib.Core.List.{reverse-append, reverse_aux}
use phud.Text.{starts_with, ends_with, find?}
use phud.Text.Search.{ends_with-append}
use phud.Filesystem.Patterns.{star, stars}
use phud.Filesystem.Glob
use phud.Filesystem.Glob.{Glob, Plain}
use phud.Filesystem.Parts.{emit, pieces, pieces-star, pieces-other}
use phud.Filesystem.Floating.{floating, floating-none, floating-some}

-- The last character is a star.
pub ends_star : Bytes → Bool
ends_star [] = false
ends_star (c ∷ []) = c == star
ends_star (c ∷ d ∷ s) = ends_star (d ∷ s)

reverse_aux-ne : (d : ℕ) (s acc : Bytes) → (c : ℕ) × (t : Bytes) × (reverse_aux s (d ∷ acc) ≡ c ∷ t)
reverse_aux-ne d [] acc = (d, acc, refl)
reverse_aux-ne d (c ∷ s) acc = reverse_aux-ne c s (d ∷ acc)

pub ends_with-ends_star : (s : Bytes) → ends_with s stars ≡ ends_star s
unfolding ends_star
ends_with-ends_star [] = refl
ends_with-ends_star (c ∷ []) = ground arith
ends_with-ends_star (c ∷ d ∷ s) =
    let (b, t, e) = reverse_aux-ne d s [] in
    let r : reverse (c ∷ d ∷ s) ≡ b ∷ (t ++ (c ∷ [])) =
      reverse-append (c ∷ []) (d ∷ s) ∙ ap (λ u. u ++ (c ∷ [])) e in
    ap (λ u. starts_with u stars) r
    ∙ (ap (λ u. starts_with u stars) (sym e) ∙ ends_with-ends_star (d ∷ s))

pub ends_star-append :
    (s : Bytes) (d : ℕ) (t : Bytes) → ends_star (s ++ (d ∷ t)) ≡ ends_star (d ∷ t)
unfolding ends_star
ends_star-append [] d t = refl
ends_star-append (c ∷ []) d t = refl
ends_star-append (c ∷ b ∷ s) d t = ends_star-append (b ∷ s) d t

-- `starred` is what the matcher reads off the pattern's end.
abbrev pub Reads : Bool → Bytes → Type 0
Reads starred [] = Unit
Reads starred (c ∷ s) = starred ≡ ends_star (c ∷ s)

Reads-rest :
    (starred : Bool) (part : Bytes) (d : ℕ) (pattern : Bytes)
    → Reads starred (part ++ (d ∷ pattern))
    → Reads starred pattern
unfolding ends_star
Reads-rest starred part d [] h = tt
Reads-rest starred [] d (c ∷ pattern) h = h
Reads-rest starred (b ∷ part) d (c ∷ pattern) h = h ∙ ends_star-append (b ∷ part) d (c ∷ pattern)

Reads-self : (s : Bytes) → Reads (ends_with s stars) s
Reads-self [] = tt
Reads-self (c ∷ s) = ends_with-ends_star (c ∷ s)

pub Reads-behind : (part : Bytes) (d : ℕ) (q : Bytes) → Reads (ends_with (part ++ (d ∷ q)) stars) q
Reads-behind part d q =
    Reads-rest (ends_with (part ++ (d ∷ q)) stars) part d q (Reads-self (part ++ (d ∷ q)))

Reads-star :
    {starred : Bool} (part : Bytes) (d : ℕ) (pattern : Bytes)
    → Reads starred (part ++ (d ∷ pattern))
    → starred ≡ ends_star (d ∷ pattern)
Reads-star [] d pattern h = h
Reads-star (b ∷ part) d pattern h = h ∙ ends_star-append (b ∷ part) d pattern

ends_star-Plain : (s : Bytes) → Plain s → ends_star s ≡ false
unfolding ends_star
ends_star-Plain [] h = refl
ends_star-Plain (c ∷ []) h = ground (arith, h.0)
ends_star-Plain (c ∷ d ∷ s) h = ends_star-Plain (d ∷ s) h.1

pub ne_star : (d : ℕ) → (d == star) ≡ false → d ≢ star
ne_star d h e = ground arith

pub pieces_ne : (c : ℕ) (part pattern : Bytes) → pieces (c ∷ part) pattern ≢ []
unfolding pieces
pieces_ne c part [] h = ground arith
pieces_ne c part (d ∷ pattern) h = elim (Bool-cases (d == star)) [
  | inl e ↦ ground (arith, e)
  | inr e ↦ pieces_ne c (part ++ (d ∷ [])) pattern (sym (pieces-other (c ∷ part) d pattern e) ∙ h)
]

-- A pattern with no part is stars only.
pieces_empty :
    (d : ℕ) (pattern : Bytes)
    → (d == star) ≡ true
    → pieces [] pattern ≡ []
    → ends_star (d ∷ pattern) ≡ true
unfolding ends_star
pieces_empty d [] s h = s
pieces_empty d (c ∷ pattern) s h = elim (Bool-cases (c == star)) [
  | inl e ↦ pieces_empty c pattern e (sym (pieces-star [] c pattern e) ∙ h)
  | inr e ↦ absurd (pieces_ne c [] pattern (sym (pieces-other [] c pattern e) ∙ h))
]

module _ (starred : Bool) where
  -- A part behind a star, with a star behind it.
  floating-part :
      (t part : Bytes) (parts : List Bytes) {k : ℕ}
      → (parts ≡ [] → starred ≡ true)
      → find? t part ≡ some k
      → floating starred t (part ∷ parts) ≡ floating starred (drop (k + length part) t) parts
  unfolding floating
  floating-part t part [] h m = rw (h refl, m) refl
  floating-part t part (next ∷ parts) h m = floating-some starred t part next parts m

  floating-no_part :
      (t part : Bytes) (parts : List Bytes)
      → (parts ≡ [] → starred ≡ true)
      → find? t part ≡ none
      → floating starred t (part ∷ parts) ≡ false
  unfolding floating
  floating-no_part t part [] h n = rw (h refl, n) refl
  floating-no_part t part (next ∷ parts) h n = floating-none starred t part next parts n

  abbrev pub Decided : Bytes → Bytes → Bool → Type 0
  Decided pattern t b = (b ≡ true) ↔ Glob pattern t

  -- The last part, with no star behind it.
  last-Decided :
      (c : ℕ) (part t : Bytes)
      → Plain (c ∷ part)
      → starred ≡ false
      → Decided (star ∷ (c ∷ part)) t (floating starred t ((c ∷ part) ∷ []))
  unfolding floating
  last-Decided c part t h e =
      let p = c ∷ part in
      rw e (
        λ ends.
            let (r, f) = Glob.ends_with-split t p ends in
            subst (Glob (star ∷ p)) (sym f) (Glob.Glob-star p r p (Glob.Glob-self p h)),
        λ g.
            let (r, u, f, g') = Glob.Glob-star_inv refl g in
            let f' = f ∙ ap (λ v. r ++ v) (Glob.eq_of_Glob-Plain h g') in
            ap (λ v. ends_with v p) f' ∙ ends_with-append r p,
      )

  -- A part with a star behind it.
  part-Decided :
      (part pattern t : Bytes) (parts : List Bytes)
      → Plain part
      → (parts ≡ [] → starred ≡ true)
      → ((u : Bytes) → Decided (star ∷ pattern) u (floating starred u parts))
      → Decided (star ∷ (part ++ (star ∷ pattern))) t (floating starred t (part ∷ parts))
  part-Decided part pattern t parts h s ih = elim (Option-cases (find? t part)) [
    | inl n ↦ (
      λ e. let f = floating-no_part t part parts s n in absurd (ground (arith, e, f)),
      λ g.
          let (r, u, f, g') = Glob.Glob-star_inv refl g in
          let (w, e, g'') = Glob.Glob-Plain_inv part (star ∷ pattern) h g' in
          let f' = f ∙ ap (λ v. r ++ v) e in
          absurd (Glob.find?-append r part w (sym (ap (λ v. find? v part) f') ∙ n)),
    )
    | inr (k, m) ↦ (
      λ e.
          let (r, f) = Glob.find?-split t part m in
          let d = drop (k + length part) t in
          let g = (ih d).0 (sym (floating-part t part parts s m) ∙ e) in
          subst (Glob (star ∷ (part ++ (star ∷ pattern)))) (sym f) (
            Glob.Glob-star (part ++ (star ∷ pattern)) r (part ++ d)
              (Glob.Glob-Plain part (star ∷ pattern) d h g)),
      λ g.
          let (r, u, f, g') = Glob.Glob-star_inv refl g in
          let (w, e, g'') = Glob.Glob-Plain_inv part (star ∷ pattern) h g' in
          let f' = f ∙ ap (λ v. r ++ v) e in
          let (q, b) = Glob.find?-behind_first r part w (sym (ap (λ v. find? v part) f') ∙ m) in
          let b' = ap (drop (k + length part)) f' ∙ b in
          floating-part t part parts s m
          ∙ (ih (drop (k + length part) t)).1
              (subst (Glob (star ∷ pattern)) (sym b') (Glob.Glob-star_more pattern q w g'')),
    )
  ]

  emit-Decided :
      (part pattern t : Bytes)
      → Plain part
      → (pieces [] pattern ≡ [] → starred ≡ true)
      → ((u : Bytes) → Decided (star ∷ pattern) u (floating starred u (pieces [] pattern)))
      → Decided
          (star ∷ (part ++ (star ∷ pattern)))
          t
          (floating starred t (emit part (pieces [] pattern)))
  emit-Decided [] pattern t h s ih =
      let (drop_one, add_one) = Glob.Glob-two_stars pattern t in
      let (sound, complete) = ih t in (λ e. add_one (sound e), λ g. complete (drop_one g))
  emit-Decided (c ∷ part) pattern t h s ih =
      part-Decided (c ∷ part) pattern t (pieces [] pattern) h s ih

  -- The parts of a pattern behind a star, the first of which has begun.
  pub pieces-Decided :
      (part pattern t : Bytes)
      → Plain part
      → Reads starred (part ++ pattern)
      → Decided (star ∷ (part ++ pattern)) t (floating starred t (pieces part pattern))
  unfolding pieces
  pieces-Decided [] [] t h e = (λ x. Glob.Glob-star_all t, λ g. unfold floating in refl)
  pieces-Decided (c ∷ part) [] t h e =
      let a = append-nil part in
      let n = rw a at e ∙ ends_star-Plain (c ∷ part) h in rw a (last-Decided c part t h n)
  pieces-Decided part (d ∷ pattern) t h e = elim (Bool-cases (d == star)) [
    | inl s ↦
        let d' = eq_of_== d star s in
        subst (λ ps. Decided (star ∷ (part ++ (d ∷ pattern))) t (floating starred t ps))
          (sym (pieces-star part d pattern s))
          (subst
            (λ b.
              Decided (star ∷ (part ++ (b ∷ pattern))) t
                (floating starred t (emit part (pieces [] pattern))))
            (sym d')
            (emit-Decided part pattern t h
              (λ empty. Reads-star part d pattern e ∙ pieces_empty d pattern s empty)
              (λ u. pieces-Decided [] pattern u tt (Reads-rest starred part d pattern e))))
    | inr n ↦
        let a = append_assoc part (d ∷ []) pattern in
        subst (λ ps. Decided (star ∷ (part ++ (d ∷ pattern))) t (floating starred t ps))
          (sym (pieces-other part d pattern n))
          (subst
            (λ u. Decided (star ∷ u) t (floating starred t (pieces (part ++ (d ∷ [])) pattern))) a
            (pieces-Decided (part ++ (d ∷ [])) pattern t
              (All-append (λ c. c ≢ star) part (d ∷ []) h (ne_star d n, tt))
              (subst (Reads starred) (sym a) e)))
  ]
