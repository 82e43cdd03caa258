-- ===== src/Filesystem/Glob.antt =====
-- What it means that a name matches a pattern, with no search order in it: a relation, its
-- inversions, and the part of a text behind the first place of a pattern's part.
use phud.Prelude.{
  ℕ, zero, suc, ◌+◌, ◌≤◌, ◌≡◌, ◌≢◌, ◌↔◌, refl, sym, ap, ◌∙◌, subst, true, false, none, some, [],
  ◌∷◌, ◌++◌, reverse, append-nil, append_assoc, Bytes, All, length, drop, arith, drop-append,
  length-append,
}
use mathlib.Core.List.{reverse-append, reverse-reverse}
use phud.Text.{starts_with, ends_with, find?}
use phud.Text.Search.{starts_with-append, starts_with-split, NotBefore, find?-some, find?-none}
use phud.Filesystem.Patterns.{star}

pub data Glob : Bytes → Bytes → Type 0 where
  end : Glob [] []
  char : {c : ℕ} {p s : Bytes} → c ≢ star → Glob p s → Glob (c ∷ p) (c ∷ s)
  leave : {d : ℕ} {p s : Bytes} → d ≡ star → Glob p s → Glob (d ∷ p) s
  take : {d c : ℕ} {p s : Bytes} → d ≡ star → Glob (d ∷ p) s → Glob (d ∷ p) (c ∷ s)

-- A text without a star.
abbrev pub Plain : Bytes → Type 0
Plain = All (λ c. c ≢ star)

pub Glob-Plain : (p q s : Bytes) → Plain p → Glob q s → Glob (p ++ q) (p ++ s)
Glob-Plain [] q s h g = g
Glob-Plain (c ∷ p) q s h g = char h.0 (Glob-Plain p q s h.1 g)

pub Glob-Plain_inv :
    (p q : Bytes) {s : Bytes} → Plain p → Glob (p ++ q) s → (r : Bytes) × (s ≡ p ++ r) × Glob q r
Glob-Plain_inv [] q {s} h g = (s, refl, g)
Glob-Plain_inv (c ∷ p) q h (char n g) =
    let (r, e, t) = Glob-Plain_inv p q h.1 g in (r, ap (◌∷◌ c) e, t)
Glob-Plain_inv (c ∷ p) q h (leave e g) = absurd (h.0 e)
Glob-Plain_inv (c ∷ p) q h (take e g) = absurd (h.0 e)

pub Glob-star : (q r s : Bytes) → Glob q s → Glob (star ∷ q) (r ++ s)
Glob-star q [] s g = leave refl g
Glob-star q (c ∷ r) s g = take refl (Glob-star q r s g)

pub Glob-star_inv :
    {d : ℕ} {q s : Bytes} → d ≡ star → Glob (d ∷ q) s → (r t : Bytes) × (s ≡ r ++ t) × Glob q t
Glob-star_inv e (char n g) = absurd (n e)
Glob-star_inv {s} e (leave m g) = ([], s, refl, g)
Glob-star_inv e (take {c} m g) = let (r, t, f, h) = Glob-star_inv e g in (c ∷ r, t, ap (◌∷◌ c) f, h)

-- What follows a star may drop its beginning.
pub Glob-star_more : (q r s : Bytes) → Glob (star ∷ q) s → Glob (star ∷ q) (r ++ s)
Glob-star_more q [] s g = g
Glob-star_more q (c ∷ r) s g = take refl (Glob-star_more q r s g)

pub Glob-two_stars : (q s : Bytes) → Glob (star ∷ star ∷ q) s ↔ Glob (star ∷ q) s
Glob-two_stars q s = (
  λ g.
      let (r, t, e, h) = Glob-star_inv refl g in
      subst (Glob (star ∷ q)) (sym e) (Glob-star_more q r t h),
  leave refl,
)

-- A star alone matches all.
pub Glob-star_all : (s : Bytes) → Glob (star ∷ []) s
Glob-star_all s = subst (Glob (star ∷ [])) (append-nil s) (Glob-star [] s [] end)

-- A pattern without a star matches itself and nothing else.
pub Glob-self : (p : Bytes) → Plain p → Glob p p
Glob-self [] h = end
Glob-self (c ∷ p) h = char h.0 (Glob-self p h.1)

pub eq_of_Glob-Plain : {p s : Bytes} → Plain p → Glob p s → s ≡ p
eq_of_Glob-Plain h end = refl
eq_of_Glob-Plain h (char {c} n g) = ap (◌∷◌ c) (eq_of_Glob-Plain h.1 g)
eq_of_Glob-Plain h (leave e g) = absurd (h.0 e)
eq_of_Glob-Plain h (take e g) = absurd (h.0 e)

-- Splitting a text where it ends with another.
pub ends_with-split : (s p : Bytes) → ends_with s p ≡ true → (r : Bytes) × (s ≡ r ++ p)
ends_with-split s p h =
    let t = drop (length (reverse p)) (reverse s) in
    let e : reverse s ≡ reverse p ++ t = starts_with-split (reverse s) (reverse p) h in
    (
      reverse t,
      sym (reverse-reverse s)
          ∙ (ap reverse e
              ∙ (reverse-append (reverse p) t ∙ ap (λ u. reverse t ++ u) (reverse-reverse p))),
    )

pub drop-sum : (n m : ℕ) (s : Bytes) → drop (n + m) s ≡ drop m (drop n s)
drop-sum zero m s = let e : zero + m ≡ m = omega arith in rw e
drop-sum (suc n) zero [] = let e : suc n + zero ≡ suc n = omega arith in rw e
drop-sum (suc n) (suc m) [] = let e : suc n + suc m ≡ suc (n + suc m) = omega arith in rw e
drop-sum (suc n) m (c ∷ s) = let e : suc n + m ≡ suc (n + m) = omega arith in rw e (drop-sum n m s)

drop-append-le : (n : ℕ) (s t : Bytes) → n ≤ length s → drop n (s ++ t) ≡ drop n s ++ t
drop-append-le zero s t h = refl
drop-append-le (suc n) [] t h = absurd (omega arith)
drop-append-le (suc n) (c ∷ s) t h = drop-append-le n s t (omega arith)

-- The first place of `p` is not behind any other of its places.
le_of_NotBefore : (r p t : Bytes) (k : ℕ) → NotBefore (r ++ (p ++ t)) p k → k ≤ length r
le_of_NotBefore r p t zero h = omega arith
le_of_NotBefore [] [] [] (suc k) h = ground arith
le_of_NotBefore [] [] (d ∷ t) (suc k) h = ground (arith, h.0)
le_of_NotBefore [] (c ∷ p) t (suc k) h = ground (arith, h.0, starts_with-append (c ∷ p) t)
le_of_NotBefore (c ∷ r) p t (suc k) h = omega (arith, le_of_NotBefore r p t k h.1)

-- What follows some place of `p` is an end of what follows its first place.
pub find?-behind_first :
    (r p t : Bytes) {k : ℕ}
    → find? (r ++ (p ++ t)) p ≡ some k
    → (q : Bytes) × (drop (k + length p) (r ++ (p ++ t)) ≡ q ++ t)
find?-behind_first r p t {k} h =
    let l : k ≤ length r = le_of_NotBefore r p t k (find?-some (r ++ (p ++ t)) p k h).1 in
    (
      drop (k + length p) (r ++ p),
      ap (drop (k + length p)) (sym (append_assoc r p t))
          ∙ drop-append-le (k + length p) (r ++ p) t (omega (arith, length-append r p)),
    )

split_at : (n : ℕ) (s : Bytes) → (r : Bytes) × (s ≡ r ++ drop n s)
split_at zero s = ([], refl)
split_at (suc n) [] = ([], refl)
split_at (suc n) (c ∷ s) = let (r, e) = split_at n s in (c ∷ r, ap (◌∷◌ c) e)

-- The text before the first place of `p`, `p`, and the text behind it.
pub find?-split :
    (s p : Bytes) {k : ℕ}
    → find? s p ≡ some k
    → (r : Bytes) × (s ≡ r ++ (p ++ drop (k + length p) s))
find?-split s p {k} h =
    let (r, e) = split_at k s in
    let f = starts_with-split (drop k s) p (find?-some s p k h).0 in
    (r, e ∙ ap (λ u. r ++ u) (f ∙ ap (λ u. p ++ u) (sym (drop-sum k (length p) s))))

pub find?-append : (r p t : Bytes) → find? (r ++ (p ++ t)) p ≢ none
find?-append r p t h =
    let e = find?-none (r ++ (p ++ t)) p (length r) h in
    let f : starts_with (p ++ t) p ≡ false =
      ap (λ u. starts_with u p) (sym (drop-append r (p ++ t))) ∙ e in
    cc (f, starts_with-append p t)
