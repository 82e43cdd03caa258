-- ===== src/Filesystem/Decision.antt =====
-- The answer of matches_pattern: for which patterns it is that of Glob, and for which it is not.
use phud.Prelude.{
  ℕ, ◌≡◌, ◌≢◌, ◌⊎◌, refl, sym, ap, ◌∙◌, subst, inl, inr, true, false, [], ◌∷◌, ◌++◌, append-nil,
  Bytes, eq_of_==, arith, ◌==◌, Bool-cases,
}
use phud.Prelude.Result.{ok, Build}
use phud.Text.{ends_with, contains}
use phud.Filesystem.Patterns.{star, matches_pattern}
use phud.Filesystem.Glob.{Glob, Plain}
use phud.Filesystem.Parts.{pieces}
use phud.Filesystem.Floating.{match_parts_single}
use phud.Filesystem.Matching.{ne_star}
use phud.Filesystem.Kinds.{
  Answers, is_lone_suffix, star_parts, star-Answers, Plain-Answers, literal-Answers, pieces-Plain,
  pieces-single, found-find?, contains-part, ends_of_Glob,
}

-- The text before the first star of a pattern, and what follows that star.
first_star : (p : Bytes) → Plain p ⊎ ((part q : Bytes) × (p ≡ part ++ (star ∷ q)) × Plain part)
first_star [] = inl tt
first_star (c ∷ p) = elim (Bool-cases (c == star)) [
  | inl s ↦ inr ([], p, ap (λ d. d ∷ p) (eq_of_== c star s), tt)
  | inr n ↦ elim (first_star p) [
    | inl h ↦ inl (ne_star c n, h)
    | inr (part, q, e, h) ↦ inr (c ∷ part, q, ap (◌∷◌ c) e, (ne_star c n, h))
  ]
]

nonempty-Answers :
    (b : Build) (f : ℕ) (fs : Bytes) (c : ℕ) (p part q : Bytes)
    → c ∷ p ≡ part ++ (star ∷ q)
    → Plain part
    → is_lone_suffix (c ∷ p) ≡ false
    → Answers (Glob (c ∷ p) (f ∷ fs)) (matches_pattern b (f ∷ fs) (c ∷ p))
nonempty-Answers b f fs c p [] q e h l =
    subst (λ u. Answers (Glob u (f ∷ fs)) (matches_pattern b (f ∷ fs) u)) (sym e)
      (star-Answers b f fs q (pieces [] q) refl (subst (λ u. is_lone_suffix u ≡ false) e l))
nonempty-Answers b f fs c p (d ∷ part) q e h l =
    subst (λ u. Answers (Glob u (f ∷ fs)) (matches_pattern b (f ∷ fs) u)) (sym e)
      (Plain-Answers b f fs d part q h)

-- For a name and a pattern that are not empty, the pattern not being one part without a star behind
-- one star or more, matchesPattern returns in either build, and answers true exactly if the name is
-- the pattern with each star replaced by some text.
pub matches_pattern-Answers :
    (b : Build) (filename pattern : Bytes)
    → filename ≢ []
    → pattern ≢ []
    → is_lone_suffix pattern ≡ false
    → Answers (Glob pattern filename) (matches_pattern b filename pattern)
matches_pattern-Answers b [] pattern hf hp l = absurd (hf refl)
matches_pattern-Answers b (f ∷ fs) [] hf hp l = absurd (hp refl)
matches_pattern-Answers b (f ∷ fs) (c ∷ p) hf hp l = elim (first_star (c ∷ p)) [
  | inl h ↦ literal-Answers b f fs c p h
  | inr (part, q, e, h) ↦ nonempty-Answers b f fs c p part q e h l
]

-- Behind a single star the part is looked for anywhere.
pub matches_lone_suffix :
    (b : Build) (f : ℕ) (fs : Bytes) (c : ℕ) (part : Bytes)
    → Plain (c ∷ part)
    → matches_pattern b (f ∷ fs) (star ∷ c ∷ part) ≡ ok (contains (f ∷ fs) (c ∷ part))
matches_lone_suffix b f fs c part h =
    let e : pieces [] (c ∷ part) ≡ (c ∷ part) ∷ [] =
      ap (pieces []) (sym (append-nil (c ∷ part)))
      ∙ (pieces-Plain [] (c ∷ part) [] h ∙ pieces-single c part) in
    star_parts b f fs (c ∷ part) ((c ∷ part) ∷ []) e
    ∙ (match_parts_single (f ∷ fs) (star ∷ c ∷ part) (c ∷ part) refl
        ∙ found-find? (f ∷ fs) (c ∷ part))

-- A pattern that is a star and a part without a star is matched, in either build, by every name in
-- which the part stands behind some text, although the name does not end with the part, if it does
-- not.
pub lone_suffix_matches_wrongly :
    (b : Build) (before part behind : Bytes)
    → before ≢ []
    → part ≢ []
    → Plain part
    → ends_with (before ++ (part ++ behind)) part ≡ false
    → (matches_pattern b (before ++ (part ++ behind)) (star ∷ part) ≡ ok true)
      × (¬ Glob (star ∷ part) (before ++ (part ++ behind)))
lone_suffix_matches_wrongly b [] part behind hb hp h n = absurd (hb refl)
lone_suffix_matches_wrongly b (f ∷ fs) [] behind hb hp h n = absurd (hp refl)
lone_suffix_matches_wrongly b (f ∷ fs) (c ∷ part) behind hb hp h n =
    let name = (f ∷ fs) ++ ((c ∷ part) ++ behind) in
    (
      matches_lone_suffix b f (fs ++ ((c ∷ part) ++ behind)) c part h
          ∙ ap ok (contains-part (f ∷ fs) (c ∷ part) behind),
      λ g. absurd (ground (arith, n, ends_of_Glob (c ∷ part) name h g)),
    )
