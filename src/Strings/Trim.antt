-- ===== src/Strings/Trim.antt =====
-- trim, replaceAll of a character and sanitize (strings/StringViewUtils.cpp).
use mathlib.Core.List.{reverse-append, reverse-reverse, reverse-cons}
use phud.Prelude.{
  ℕ, suc, inl, inr, ◌≡◌, ◌≢◌, refl, sym, ap, ◌∙◌, true, false, [], ◌∷◌, ◌++◌, reverse, Bytes, All,
  All-append, ◌==◌, if◌then◌else◌, arith, Bool-cases, length,
}
use phud.Strings.{is_space, drop_spaces, trim, replace_char, sanitize}

abbrev pub IsSpace : ℕ → Type 0
IsSpace c = is_space c ≡ true

-- No white space at the front.
abbrev pub Starts : Bytes → Type 0
Starts [] = Unit
Starts (c ∷ s) = is_space c ≡ false

-- `s` is `t` between white space.
pub record Padded (s t : Bytes) : Type 0 where
  pub before : Bytes
  pub behind : Bytes
  pub splits : s ≡ before ++ (t ++ behind)
  pub before_space : All IsSpace before
  pub behind_space : All IsSpace behind

-- the white space that `drop_spaces` drops
lead : Bytes → Bytes
lead [] = []
lead (c ∷ s) = if is_space c then c ∷ lead s else []

lead-splits : (s : Bytes) → s ≡ lead s ++ drop_spaces s
unfolding lead drop_spaces
lead-splits [] = refl
lead-splits (c ∷ s) = ground (arith, lead-splits s)

lead-IsSpace : (s : Bytes) → All IsSpace (lead s)
unfolding lead
lead-IsSpace [] = tt
lead-IsSpace (c ∷ s) = elim (Bool-cases (is_space c)) [
  | inl e ↦ rw e (e, lead-IsSpace s)
  | inr e ↦ rw e tt
]

drop_spaces-Starts : (s : Bytes) → Starts (drop_spaces s)
unfolding drop_spaces
drop_spaces-Starts [] = tt
drop_spaces-Starts (c ∷ s) = elim (Bool-cases (is_space c)) [
  | inl e ↦ rw e (drop_spaces-Starts s)
  | inr e ↦ rw e e
]

All-reverse : (s : Bytes) → All IsSpace s → All IsSpace (reverse s)
All-reverse [] h = tt
All-reverse (c ∷ s) h =
    rw (reverse-cons c s) (All-append IsSpace (reverse s) (c ∷ []) (All-reverse s h.1) (h.0, tt))

-- A prefix of a text that starts with no white space does so too.
Starts-prefix : (s t : Bytes) → Starts (s ++ t) → Starts s
Starts-prefix [] t h = tt
Starts-prefix (c ∷ s) t h = h

-- The middle of a reversal: what is left when the trailing white space is dropped.
rtrim-splits : (s : Bytes) → s ≡ reverse (drop_spaces (reverse s)) ++ reverse (lead (reverse s))
rtrim-splits s =
    sym (reverse-reverse s)
    ∙ ap reverse (lead-splits (reverse s))
    ∙ reverse-append (lead (reverse s)) _

-- A text is its trimmed text between white space, and the trimmed text has no white space at either
-- end.
pub trim-Padded : (s : Bytes) → Padded s (trim s) × Starts (trim s) × Starts (reverse (trim s))
unfolding trim
trim-Padded s = (
  record {
    before = lead s;
    behind = reverse (lead (reverse (drop_spaces s)));
    splits = lead-splits s ∙ ap (◌++◌ (lead s)) (rtrim-splits (drop_spaces s));
    before_space = lead-IsSpace s;
    behind_space = All-reverse _ (lead-IsSpace (reverse (drop_spaces s)));
  },
  Starts-prefix (reverse (drop_spaces (reverse (drop_spaces s))))
      (reverse (lead (reverse (drop_spaces s))))
      (rw (← rtrim-splits (drop_spaces s)) (drop_spaces-Starts s)),
  rw reverse-reverse (drop_spaces-Starts (reverse (drop_spaces s))),
)

drop_spaces-fixed : (s : Bytes) → Starts s → drop_spaces s ≡ s
unfolding drop_spaces
drop_spaces-fixed [] h = refl
drop_spaces-fixed (c ∷ s) h = rw h

-- A text with no white space at either end is left alone.
pub trim-fixed : (s : Bytes) → Starts s → Starts (reverse s) → trim s ≡ s
unfolding trim
trim-fixed s h k = rw (drop_spaces-fixed s h, drop_spaces-fixed (reverse s) k, reverse-reverse)

pub trim_idem : (s : Bytes) → trim (trim s) ≡ trim s
trim_idem s = let (_, a, b) = trim-Padded s in trim-fixed (trim s) a b

replace_char-lacks : (s : Bytes) (a b : ℕ) → a ≢ b → All (λ c. c ≢ a) (replace_char s a b)
unfolding replace_char
replace_char-lacks [] a b h = tt
replace_char-lacks (c ∷ s) a b h = (
  elim (Bool-cases (c == a)) [
    | inl e ↦ rw e (λ q. h (sym q))
    | inr e ↦ rw e (λ q. ground (arith, e))
  ],
  replace_char-lacks s a b h,
)

pub length-replace_char : (s : Bytes) (a b : ℕ) → length (replace_char s a b) ≡ length s
unfolding replace_char
length-replace_char [] a b = refl
length-replace_char (c ∷ s) a b = ap suc (length-replace_char s a b)

-- The result of sanitize holds no simple quote, and it is as long as the trimmed text.
pub sanitize-lacks_quote :
    (s : Bytes) → All (λ c. c ≢ 39) (sanitize s) × (length (sanitize s) ≡ length (trim s))
unfolding sanitize
sanitize-lacks_quote s =
    (replace_char-lacks (trim s) 39 45 (omega arith), length-replace_char (trim s) 39 45)
