-- ===== src/History/Fields/Splitting.antt =====
-- split (history/PokerSiteHandBuilder.cpp) on tokens that single spaces keep apart.
use phud.Prelude.{
  ℕ, zero, suc, ◌+◌, ◌-◌, ◌<◌, ◌≤◌, ◌≡◌, ◌≢◌, refl, ◌∙◌, List, [], ◌∷◌, ◌++◌, append_assoc, Bytes,
  length, set, replicate, none, some, All, arith, length-append, take-append, drop-append,
  length-set,
}
use phud.Prelude.Result.{ok}
use phud.Text.{find?, substr, plus}
use phud.Text.Search.{find?-lacks, find?-behind}
use phud.History.Fields.{set_at, substr_from, find_behind, split_end, split_loop, split, none_token}

abbrev pub space : ℕ
space = 32

-- Tokens with one space between each two.
abbrev pub join : List Bytes → Bytes
join [] = []
join (t ∷ []) = t
join (t ∷ u ∷ ts) = t ++ (space ∷ join (u ∷ ts))

-- No token holds a space, and the last one is not a single character.
abbrev pub AreTokens : List Bytes → Type 0
AreTokens [] = Unit
AreTokens (t ∷ []) = All (λ c. c ≢ space) t × (length t ≢ 1)
AreTokens (t ∷ u ∷ ts) = All (λ c. c ≢ space) t × AreTokens (u ∷ ts)

-- `xs` with the tokens written from the place `i` on.
abbrev pub overwrite : List Bytes → ℕ → List Bytes → List Bytes
overwrite xs i [] = xs
overwrite xs i (t ∷ ts) = overwrite (set xs i t) (i + 1) ts

find_behind-drop :
    (pre s p : Bytes) → find_behind (pre ++ s) p (length pre) ≡ plus (length pre) (find? s p)
find_behind-drop pre s p = rw drop-append (ground (arith, length-append pre s))

step_end :
    (fuel : ℕ) (str d : Bytes) (o i : ℕ) (ret : List Bytes)
    → find_behind str d o ≡ none
    → split_loop (suc fuel) str d o i ret ≡ split_end str o i ret
unfolding split_loop
step_end fuel str d o i ret h = rw (h, split_loop)

step_more :
    (fuel : ℕ) (str d t : Bytes) (o i place : ℕ) (ret : List Bytes)
    → find_behind str d o ≡ some place
    → substr str o (place - o) ≡ ok t
    → i < length ret
    → split_loop (suc fuel) str d o i ret
      ≡ split_loop fuel str d (place + length d) (i + 1) (set ret i t)
unfolding split_loop set_at
step_more fuel str d t o i place ret h e l = rw (h, split_loop) (ground (arith, e))

end_token :
    (pre t : Bytes) (i : ℕ) (ret : List Bytes)
    → length t ≢ 1
    → i < length ret
    → split_end (pre ++ t) (length pre) i ret ≡ ok (set ret i t)
unfolding split_end set_at substr_from
end_token pre t i ret h l = ground (arith, length-append pre t, drop-append pre t)

find_end :
    (pre t : Bytes)
    → All (λ c. c ≢ space) t
    → find_behind (pre ++ t) (space ∷ []) (length pre) ≡ none
find_end pre t h = find_behind-drop pre t (space ∷ []) ∙ rw (find?-lacks t [] space h) refl

find_more :
    (pre t r : Bytes)
    → All (λ c. c ≢ space) t
    → find_behind (pre ++ (t ++ (space ∷ r))) (space ∷ []) (length pre)
      ≡ some (length pre + length t)
find_more pre t r h =
    find_behind-drop pre (t ++ (space ∷ r)) (space ∷ []) ∙ rw (find?-behind t [] r space h) refl

cut_more :
    (pre t r : Bytes)
    → substr (pre ++ (t ++ (space ∷ r))) (length pre) (length pre + length t - length pre) ≡ ok t
unfolding substr
cut_more pre t r = ground (
  arith,
  length-append pre (t ++ (space ∷ r)),
  drop-append pre (t ++ (space ∷ r)),
  take-append t (space ∷ r),
)

split_loop-join :
    (fuel : ℕ) (pre : Bytes) (ts : List Bytes) (i : ℕ) (ret : List Bytes)
    → AreTokens ts
    → 0 < length ts
    → i + length ts ≤ length ret
    → length ts ≤ fuel
    → split_loop fuel (pre ++ join ts) (space ∷ []) (length pre) i ret ≡ ok (overwrite ret i ts)
split_loop-join fuel pre [] i ret h z l f = absurd (omega arith)
split_loop-join zero pre (t ∷ ts) i ret h z l f = absurd (omega arith)
split_loop-join (suc fuel) pre (t ∷ []) i ret h z l f =
    step_end fuel (pre ++ t) (space ∷ []) (length pre) i ret (find_end pre t h.0)
    ∙ end_token pre t i ret h.1 (omega arith)
split_loop-join (suc fuel) pre (t ∷ u ∷ ts) i ret h z l f =
    let r = join (u ∷ ts) in
    let e : pre ++ (t ++ (space ∷ r)) ≡ (pre ++ (t ++ (space ∷ []))) ++ r = simp append_assoc in
    let n : length pre + length t + 1 ≡ length (pre ++ (t ++ (space ∷ []))) =
      ground (arith, length-append pre (t ++ (space ∷ [])), length-append t (space ∷ [])) in
    step_more fuel (pre ++ (t ++ (space ∷ r))) (space ∷ []) t (length pre) i (length pre + length t)
      ret (find_more pre t r h.0) (cut_more pre t r) (omega arith)
    ∙ rw (n, e)
        (split_loop-join fuel (pre ++ (t ++ (space ∷ []))) (u ∷ ts) (i + 1) (set ret i t) h.1
          (omega arith) (rw length-set (omega arith)) (omega arith))

length-join : (ts : List Bytes) → length ts ≤ length (join ts) + 1
length-join [] = omega arith
length-join (t ∷ []) = omega arith
length-join (t ∷ u ∷ ts) =
    omega (arith, length-join (u ∷ ts), length-append t (space ∷ join (u ∷ ts)))

-- split returns one to five tokens that single spaces keep apart, in their order in the first
-- places of its array, with "none" behind them, if no token holds a space and the last one is not a
-- single character.
pub split-join :
    (ts : List Bytes)
    → AreTokens ts
    → 0 < length ts
    → length ts ≤ 5
    → split (join ts) (space ∷ []) ≡ ok (overwrite (replicate 5 none_token) 0 ts)
unfolding split
split-join ts h z l =
    let l' : 0 + length ts ≤ 5 = omega arith in
    split_loop-join (suc (length (join ts))) [] ts 0 (replicate 5 none_token) h z l'
      (omega (arith, length-join ts))

-- A last token of one character is lost: every text of a single character but the space has none.
pub split_drops_character :
    (c : ℕ) → c ≢ space → split (c ∷ []) (space ∷ []) ≡ ok (replicate 5 none_token)
unfolding split split_loop split_end find?
split_drops_character c h = ground arith
