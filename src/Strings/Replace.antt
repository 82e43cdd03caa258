-- ===== src/Strings/Replace.antt =====
-- replaceAll with two strings (strings/StringViewUtils.cpp): its result, and when its loop ends.
use phud.Prelude.{
  ℕ, zero, suc, ◌+◌, ◌≤◌, ◌<◌, ◌≡◌, ◌≢◌, refl, ap, inl, inr, none, some, List, [], ◌∷◌, ◌++◌,
  append_assoc, Bytes, arith, Option-cases, length, take, drop, length-append, drop-append,
}
use phud.Prelude.Result.{ok, err, out_of_fuel}
use phud.Text.{find?, starts_with}
use phud.Text.Search.{find?-some, find?-none, starts_with-append, starts_with-split}
use phud.Strings.{replace_all, replace_at}

-- What replaceAll of two strings returns holds no occurrence of the old string.
pub replace_all-lacks :
    (fuel : ℕ) (s old_str new_str t : Bytes)
    → replace_all fuel s old_str new_str ≡ ok t
    → find? t old_str ≡ none
unfolding replace_all
replace_all-lacks zero s old_str new_str t h = cc
replace_all-lacks (suc fuel) s old_str new_str t h = elim (Option-cases (find? s old_str)) [
  | inl e ↦ ground (arith, e)
  | inr (place, e) ↦ replace_all-lacks fuel _ old_str new_str t (rw (e, replace_all) at h)
]

length-take-drop :
    {A : Type 0} (n : ℕ) (s : List A)
    → n ≤ length s
    → length (take n s) + length (drop n s) ≡ length s
length-take-drop zero s h = omega arith
length-take-drop (suc n) [] h = omega arith
length-take-drop (suc n) (c ∷ s) h = omega (arith, length-take-drop n s (omega arith))

length-replace_at :
    (s p q : Bytes) (i : ℕ)
    → find? s p ≡ some i
    → length (replace_at s i (length p) q) + length p ≡ length s + length q
length-replace_at s p q i e =
    let (a, _, l) = find?-some s p i e in
    omega (
      arith,
      length-append (take i s) (q ++ drop (length p) (drop i s)),
      length-append q (drop (length p) (drop i s)),
      length-take-drop i s l,
      ap length (starts_with-split (drop i s) p a),
      length-append p (drop (length p) (drop i s)),
    )

-- replaceAll of two strings returns, within as many rounds as the text is long and one, if the new
-- string is shorter than the old one.
pub replace_all_ends :
    (fuel : ℕ) (s old_str new_str : Bytes)
    → length new_str < length old_str
    → length s < fuel
    → (t : Bytes) × (replace_all fuel s old_str new_str ≡ ok t)
unfolding replace_all
replace_all_ends zero s old_str new_str h l = absurd (omega arith)
replace_all_ends (suc fuel) s old_str new_str h l = elim (Option-cases (find? s old_str)) [
  | inl e ↦ (s, rw (e, replace_all))
  | inr (place, e) ↦
      rw (e, replace_all)
        (replace_all_ends fuel (replace_at s place (length old_str) new_str) old_str new_str h
          (omega (arith, length-replace_at s old_str new_str place e)))
]

length-take : {A : Type 0} (n : ℕ) (s : List A) → n ≤ length s → length (take n s) ≡ n
length-take zero s h = refl
length-take (suc n) [] h = omega arith
length-take (suc n) (c ∷ s) h = omega (arith, length-take n s (omega arith))

-- A text that is somewhere in another is found there.
pub found_inside : (a p b : Bytes) → find? (a ++ (p ++ b)) p ≢ none
found_inside a p b h = cc (
  find?-none (a ++ (p ++ b)) p (length a) h,
  ap (λ t. starts_with t p) (drop-append a (p ++ b)),
  starts_with-append p b,
)

-- replaceAll of two strings never ends if the text holds the old string and the new string holds it
-- too.
pub replace_all_diverges :
    (fuel : ℕ) (s old_str before behind : Bytes)
    → find? s old_str ≢ none
    → replace_all fuel s old_str (before ++ (old_str ++ behind)) ≡ err out_of_fuel
unfolding replace_all
replace_all_diverges zero s old_str before behind h = refl
replace_all_diverges (suc fuel) s old_str before behind h = elim (Option-cases (find? s old_str)) [
  | inl e ↦ absurd (h e)
  | inr (place, e) ↦
      rw (e, replace_all)
        (replace_all_diverges fuel _ old_str before behind (λ k.
          found_inside (take place s ++ before) old_str
            (behind ++ drop (length old_str) (drop place s))
            (simp append_assoc (simp append_assoc at k))))
]
