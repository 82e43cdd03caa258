-- ===== src/Filesystem/Kinds.antt =====
-- The answer of matches_pattern for each kind of pattern: without a star, beginning with a star, and
-- beginning with a part.
use phud.Prelude.{
  ℕ, ◌≡◌, ◌⊎◌, ◌↔◌, refl, sym, ap, ◌∙◌, subst, inl, inr, Bool, true, false, not, ◌&&◌, List, [],
  ◌∷◌, ◌++◌, append-nil, append_assoc, Bytes, length, drop, bytes_eq, eq_of_bytes_eq, bytes_eq_self,
  arith, ◌==◌, if◌then◌else◌, Bool-cases, Option-cases, drop-append,
}
use phud.Prelude.Result.{Result, ok, Build, require, debug, release}
use phud.Text.{starts_with, ends_with, find?, found, contains}
use phud.Text.Search.{starts_with-split, starts_with-append, ends_with-append, find?-lacks}
use phud.Filesystem.Patterns.{
  star, stars, split_pattern_by_wildcards, match_pattern_parts, matches_pattern,
}
use phud.Filesystem.Glob.{
  Glob, Plain, Glob-Plain, Glob-Plain_inv, Glob-star_inv, Glob-self, eq_of_Glob-Plain, find?-append,
}
use phud.Filesystem.Parts.{pieces, pieces-star, pieces-other, split_pattern-pieces}
use phud.Filesystem.Floating.{floating, match_parts_single, match_parts_star, match_parts_plain}
use phud.Filesystem.Matching.{Decided, Reads-behind, pieces-Decided}

-- The call returns, and its answer is right about `G`.
abbrev pub Answers : Type 0 → Result Bool → Type 0
Answers G r = ((r ≡ ok true) × G) ⊎ ((r ≡ ok false) × (¬ G))

Answers-Decided :
    {G : Type 0} (r : Result Bool) (b : Bool) → r ≡ ok b → (b ≡ true) ↔ G → Answers G r
Answers-Decided r true e (sound, complete) = inl (e, sound refl)
Answers-Decided r false e (sound, complete) = inr (e, λ g. absurd (ground (arith, complete g)))

-- A pattern with one part, a star before it and none behind it.
abbrev pub is_lone_suffix : Bytes → Bool
is_lone_suffix pattern =
    starts_with pattern stars
    && not (ends_with pattern stars)
    && length (split_pattern_by_wildcards pattern) == 1

pub require-true : (b : Build) → require b true ≡ ok tt
require-true debug = refl
require-true release = refl

lacks_star : (part : Bytes) → Plain part → contains part stars ≡ false
unfolding contains
lacks_star part h = ap found (find?-lacks part [] star h)

pub pieces-Plain :
    (part rest pattern : Bytes)
    → Plain rest
    → pieces part (rest ++ pattern) ≡ pieces (part ++ rest) pattern
pieces-Plain part [] pattern h = ap (λ u. pieces u pattern) (sym (append-nil part))
pieces-Plain part (c ∷ rest) pattern h =
    let n : (c == star) ≡ false = ground (arith, h.0) in
    pieces-other part c (rest ++ pattern) n
    ∙ (pieces-Plain (part ++ (c ∷ [])) rest pattern h.1
        ∙ ap (λ u. pieces u pattern) (append_assoc part (c ∷ []) rest))

pub pieces-single : (c : ℕ) (part : Bytes) → pieces (c ∷ part) [] ≡ (c ∷ part) ∷ []
unfolding pieces
pieces-single c part = refl

pub found-find? : (s p : Bytes) → ok (found (find? s p)) ≡ ok (contains s p)
unfolding contains
found-find? s p = refl

pub contains-part : (r p t : Bytes) → contains (r ++ (p ++ t)) p ≡ true
unfolding contains
contains-part r p t = elim (Option-cases (find? (r ++ (p ++ t)) p)) [
  | inl n ↦ absurd (find?-append r p t n)
  | inr (k, m) ↦ rw m
]

pub ends_of_Glob : (p s : Bytes) → Plain p → Glob (star ∷ p) s → ends_with s p ≡ true
ends_of_Glob p s h g =
    let (r, u, e, g') = Glob-star_inv refl g in
    ap (λ v. ends_with v p) (e ∙ ap (λ v. r ++ v) (eq_of_Glob-Plain h g')) ∙ ends_with-append r p

-- Behind a part that begins the pattern stands a star.
part-Decided :
    (starred : Bool) (part q t : Bytes) (ps : List Bytes)
    → Plain part
    → ((u : Bytes) → Decided starred (star ∷ q) u (floating starred u ps))
    → Decided starred
        (part ++ (star ∷ q))
        t
        (if starts_with t part then floating starred (drop (length part) t) ps else false)
part-Decided starred part q t ps h ih = (
  λ e. elim (Bool-cases (starts_with t part)) [
    | inl s ↦
        let g = (ih (drop (length part) t)).0 (rw s at e) in
        subst (Glob (part ++ (star ∷ q))) (sym (starts_with-split t part s))
          (Glob-Plain part (star ∷ q) (drop (length part) t) h g)
    | inr n ↦ absurd (ground (arith, rw n at e))
  ],
  λ g.
      let (r, e, g') = Glob-Plain_inv part (star ∷ q) h g in
      let s = ap (λ u. starts_with u part) e ∙ starts_with-append part r in
      let d = ap (drop (length part)) e ∙ drop-append part r in
      rw s ((ih (drop (length part) t)).1 (subst (Glob (star ∷ q)) (sym d) g')),
)

module _ (b : Build) (f : ℕ) (fs : Bytes) where
  matches_exact :
      (c : ℕ) (p : Bytes)
      → length (split_pattern_by_wildcards (c ∷ p)) ≡ 1
      → contains (c ∷ p) stars ≡ false
      → matches_pattern b (f ∷ fs) (c ∷ p) ≡ ok (bytes_eq (f ∷ fs) (c ∷ p))
  unfolding matches_pattern
  matches_exact c p one lacks = ground (arith, one, lacks, require-true b)

  matches_split :
      (c : ℕ) (p : Bytes)
      → contains (c ∷ p) stars ≡ true
      → matches_pattern b (f ∷ fs) (c ∷ p)
        ≡ match_pattern_parts (f ∷ fs) (c ∷ p) (split_pattern_by_wildcards (c ∷ p))
  unfolding matches_pattern
  matches_split c p has = ground (arith, has, require-true b)

  matches_parts :
      (c : ℕ) (p : Bytes) (ps : List Bytes)
      → contains (c ∷ p) stars ≡ true
      → pieces [] (c ∷ p) ≡ ps
      → matches_pattern b (f ∷ fs) (c ∷ p) ≡ match_pattern_parts (f ∷ fs) (c ∷ p) ps
  matches_parts c p ps has e =
      matches_split c p has
      ∙ ap (match_pattern_parts (f ∷ fs) (c ∷ p)) (split_pattern-pieces (c ∷ p) ∙ e)

  pub star_parts :
      (q : Bytes) (ps : List Bytes)
      → pieces [] q ≡ ps
      → matches_pattern b (f ∷ fs) (star ∷ q) ≡ match_pattern_parts (f ∷ fs) (star ∷ q) ps
  star_parts q ps e =
      matches_parts star q ps (contains-part [] stars q) (pieces-star [] star q refl ∙ e)

  star-Decided :
      (q : Bytes) (ps : List Bytes)
      → pieces [] q ≡ ps
      → Decided
          (ends_with (star ∷ q) stars)
          (star ∷ q)
          (f ∷ fs)
          (floating (ends_with (star ∷ q) stars) (f ∷ fs) ps)
  star-Decided q ps e =
      let starred = ends_with (star ∷ q) stars in
      subst (λ l. Decided starred (star ∷ q) (f ∷ fs) (floating starred (f ∷ fs) l)) e
        (pieces-Decided starred [] q (f ∷ fs) tt (Reads-behind [] star q))

  -- A pattern that begins with a star.
  pub star-Answers :
      (q : Bytes) (ps : List Bytes)
      → pieces [] q ≡ ps
      → is_lone_suffix (star ∷ q) ≡ false
      → Answers (Glob (star ∷ q) (f ∷ fs)) (matches_pattern b (f ∷ fs) (star ∷ q))
  unfolding floating match_pattern_parts
  star-Answers q [] e h = Answers-Decided _ true (star_parts q [] e) (star-Decided q [] e)
  star-Answers q (part ∷ []) e h =
      let one = ap length (split_pattern-pieces (star ∷ q) ∙ (pieces-star [] star q refl ∙ e)) in
      let starred : ends_with (star ∷ q) stars ≡ true = ground (arith, one, h) in
      Answers-Decided _ _
        (star_parts q (part ∷ []) e ∙ match_parts_single (f ∷ fs) (star ∷ q) part refl)
        (rw starred at (star-Decided q (part ∷ []) e))
  star-Answers q (part ∷ next ∷ parts) e h =
      Answers-Decided _ _
        (star_parts q (part ∷ next ∷ parts) e
          ∙ match_parts_star (f ∷ fs) (star ∷ q) part next parts refl)
        (star-Decided q (part ∷ next ∷ parts) e)

  pub Plain-Answers :
      (c : ℕ) (part q : Bytes)
      → Plain (c ∷ part)
      → Answers
          (Glob ((c ∷ part) ++ (star ∷ q)) (f ∷ fs))
          (matches_pattern b (f ∷ fs) ((c ∷ part) ++ (star ∷ q)))
  Plain-Answers c part q h =
      let whole = (c ∷ part) ++ (star ∷ q) in
      let starred = ends_with whole stars in
      let n : starts_with whole stars ≡ false = ground (arith, h.0) in
      let ps = pieces-Plain [] (c ∷ part) (star ∷ q) h ∙ pieces-star (c ∷ part) star q refl in
      Answers-Decided _ _
        (matches_parts c (part ++ (star ∷ q)) _ (contains-part (c ∷ part) stars q) ps
          ∙ match_parts_plain (f ∷ fs) whole (c ∷ part) (pieces [] q) n)
        (part-Decided starred (c ∷ part) q (f ∷ fs) (pieces [] q) h
          (λ u. pieces-Decided starred [] q u tt (Reads-behind (c ∷ part) star q)))

  pub literal-Answers :
      (c : ℕ) (p : Bytes)
      → Plain (c ∷ p)
      → Answers (Glob (c ∷ p) (f ∷ fs)) (matches_pattern b (f ∷ fs) (c ∷ p))
  literal-Answers c p h =
      let e =
        split_pattern-pieces (c ∷ p)
        ∙ (ap (pieces []) (sym (append-nil (c ∷ p))) ∙ pieces-Plain [] (c ∷ p) [] h) in
      let one = ap length (e ∙ pieces-single c p) in
      Answers-Decided _ _ (matches_exact c p one (lacks_star (c ∷ p) h)) (
        λ same.
            let s = eq_of_bytes_eq (f ∷ fs) (c ∷ p) same in
            subst (Glob (c ∷ p)) (sym s) (Glob-self (c ∷ p) h),
        λ g. ap (λ u. bytes_eq u (c ∷ p)) (eq_of_Glob-Plain h g) ∙ bytes_eq_self (c ∷ p),
      )
