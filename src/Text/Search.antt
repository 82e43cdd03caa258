-- ===== src/Text/Search.antt =====
-- Searches in byte strings: where `find?` and `rfind?` find a pattern.
use phud.Prelude.{
  All, ◌≢◌, ℕ, zero, suc, ◌≤◌, ◌≡◌, refl, inl, inr, true, false, none, some, [], ◌∷◌, ◌++◌, reverse,
  Bytes, length, drop, arith, Bool-cases, Option-cases,
}
use mathlib.Core.List.{reverse-append}
use phud.Prelude.{take-append, drop-append, length-append}
use phud.Prelude.Result.{ok}
use phud.Text.{starts_with, ends_with, find?, substr}

pub starts_with-append : (p r : Bytes) → starts_with (p ++ r) p ≡ true
starts_with-append [] r = refl
starts_with-append (c ∷ p) r = ground (arith, starts_with-append p r)

pub starts_with-split : (s p : Bytes) → starts_with s p ≡ true → s ≡ p ++ drop (length p) s
starts_with-split s [] h = refl
starts_with-split [] (d ∷ p) h = ground arith
starts_with-split (c ∷ s) (d ∷ p) h = ground (arith, starts_with-split s p)

-- A text that is something followed by `p` ends with `p`.
pub ends_with-append : (r p : Bytes) → ends_with (r ++ p) p ≡ true
ends_with-append r p = rw (reverse-append r p) (starts_with-append (reverse p) (reverse r))

-- `p` stands at the place `i` of `s`.
abbrev pub At : Bytes → Bytes → ℕ → Type 0
At s p i = starts_with (drop i s) p ≡ true

-- `p` stands at none of the first `n` places of `s`.
abbrev pub NotBefore : Bytes → Bytes → ℕ → Type 0
NotBefore s p zero = Unit
NotBefore [] p (suc n) = starts_with [] p ≡ false
NotBefore (c ∷ s) p (suc n) = (starts_with (c ∷ s) p ≡ false) × NotBefore s p n

pub find?_start : (s p : Bytes) → starts_with s p ≡ true → find? s p ≡ some 0
unfolding find?
find?_start [] p h = rw h
find?_start (c ∷ s) p h = rw h

-- `find?` returns the first place of the pattern.
pub find?-some :
    (s p : Bytes) (i : ℕ) → find? s p ≡ some i → At s p i × NotBefore s p i × (i ≤ length s)
unfolding find?
find?-some [] p zero h = elim (Bool-cases (starts_with [] p)) [
  | inl e ↦ (e, tt, omega arith)
  | inr e ↦ ground (arith, e)
]
find?-some [] p (suc i) h =
    absurd (elim (Bool-cases (starts_with [] p)) [
      | inl e ↦ ground (arith, e)
      | inr e ↦ ground (arith, e)
    ])
find?-some (c ∷ s) p zero h = elim (Bool-cases (starts_with (c ∷ s) p)) [
  | inl e ↦ (e, tt, omega arith)
  | inr e ↦ ground (arith, e)
]
find?-some (c ∷ s) p (suc i) h = elim (Bool-cases (starts_with (c ∷ s) p)) [
  | inl e ↦ ground (arith, e)
  | inr e ↦ elim (Option-cases (find? s p)) [
    | inl n ↦ ground (arith, e, n)
    | inr (j, m) ↦
        let (a, b, l) = find?-some s p i (ground (arith, e, m)) in (a, (e, b), omega arith)
  ]
]

pub find?-found :
    (n p r : Bytes)
    → NotBefore (n ++ (p ++ r)) p (length n)
    → find? (n ++ (p ++ r)) p ≡ some (length n)
unfolding find?
find?-found [] p r h = find?_start (p ++ r) p (starts_with-append p r)
find?-found (c ∷ n) p r h = rw (h.0, find?-found n p r h.1)

-- What `find?` does not find stands nowhere.
pub find?-none : (s p : Bytes) (i : ℕ) → find? s p ≡ none → starts_with (drop i s) p ≡ false
unfolding find?
find?-none [] p zero h = elim (Bool-cases (starts_with [] p)) [
  | inl e ↦ ground (arith, e)
  | inr e ↦ e
]
find?-none [] p (suc i) h = elim (Bool-cases (starts_with [] p)) [
  | inl e ↦ ground (arith, e)
  | inr e ↦ e
]
find?-none (c ∷ s) p zero h = elim (Bool-cases (starts_with (c ∷ s) p)) [
  | inl e ↦ ground (arith, e)
  | inr e ↦ e
]
find?-none (c ∷ s) p (suc i) h = find?-none s p i (ground (arith, h))

-- A pattern is not found in a text that lacks its first character.
pub find?-lacks : (s p : Bytes) (c : ℕ) → All (λ d. d ≢ c) s → find? s (c ∷ p) ≡ none
unfolding find?
find?-lacks [] p c h = refl
find?-lacks (d ∷ s) p c h = ground (arith, find?-lacks s p c)

-- A pattern whose first character the text before it lacks is found right behind that text.
pub NotBefore-lacks :
    (s t p : Bytes) (c : ℕ) → All (λ d. d ≢ c) s → NotBefore (s ++ t) (c ∷ p) (length s)
NotBefore-lacks [] t p c h = tt
NotBefore-lacks (d ∷ s) t p c h = (ground arith, NotBefore-lacks s t p c h.1)

pub find?-behind :
    (s p r : Bytes) (c : ℕ)
    → All (λ d. d ≢ c) s
    → find? (s ++ ((c ∷ p) ++ r)) (c ∷ p) ≡ some (length s)
find?-behind s p r c h = find?-found s (c ∷ p) r (NotBefore-lacks s ((c ∷ p) ++ r) p c h)

-- A part of a text, by its place and its length.
pub substr-append : (s t r : Bytes) → substr (s ++ (t ++ r)) (length s) (length t) ≡ ok t
unfolding substr
substr-append s t r =
    ground (arith, length-append s (t ++ r), drop-append s (t ++ r), take-append t r)
