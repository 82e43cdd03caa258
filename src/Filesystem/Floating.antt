-- ===== src/Filesystem/Floating.antt =====
-- The loop over a pattern's parts against a plain recursion, which matches them behind a star.
use phud.Prelude.{
  ℕ, zero, suc, ◌+◌, ◌-◌, ◌≤◌, ◌<◌, ◌≡◌, ◌≢◌, refl, sym, ap, ◌∙◌, inl, inr, Bool, true, false, none,
  some, List, [], ◌∷◌, Bytes, length, drop, arith, if◌then◌else◌, Bool-cases, Option-cases,
  length-append,
}
use phud.Prelude.Result.{ok}
use phud.Text.{starts_with, ends_with, find?, found, contains}
use phud.Text.Search.{starts_with-split, find?-some}
use phud.Filesystem.Patterns.{
  stars, find_part, first_part, last_part, part_round, parts_loop, match_pattern_parts, answer,
  go_on,
}
use phud.Filesystem.Glob.{drop-sum}

-- The parts behind a star match a text: each at its first place, and the last one at the end of the
-- text, unless a star stands behind it (`starred`).
unfoldable pub floating : Bool → Bytes → List Bytes → Bool
floating starred t [] = true
floating starred t (part ∷ []) = if starred then found (find? t part) else ends_with t part
floating starred t (part ∷ next ∷ parts) = elim (find? t part) [
  | none ↦ false
  | some k ↦ floating starred (drop (k + length part) t) (next ∷ parts)
]

length-drop : (n : ℕ) (s : Bytes) → n ≤ length s → length (drop n s) + n ≡ length s
length-drop zero s h = omega arith
length-drop (suc n) [] h = absurd (omega arith)
length-drop (suc n) (c ∷ s) h = omega (arith, length-drop n s (omega arith))

find?-le : (s part : Bytes) {k : ℕ} → find? s part ≡ some k → k + length part ≤ length s
find?-le s part {k} h =
    let (at, _, l) = find?-some s part k h in
    let e = ap length (starts_with-split (drop k s) part at) in
    omega (arith, e, l, length-drop k s l, length-append part (drop (length part) (drop k s)))

length-starts : (s p : Bytes) → starts_with s p ≡ true → length p ≤ length s
length-starts s p h =
    let e = ap length (starts_with-split s p h) in
    omega (arith, e, length-append p (drop (length p) s))

module _ (place : ℕ) (t part : Bytes) where
  find_part-none : find? t part ≡ none → find_part place t part ≡ answer false
  unfolding find_part
  find_part-none e = rw (e, find_part)

  find_part-some :
      {k : ℕ} → find? t part ≡ some k → find_part place t part ≡ go_on (place + (k + length part))
  unfolding find_part
  find_part-some e = rw (e, find_part)

module _ (starred : Bool) (t part next : Bytes) (parts : List Bytes) where
  pub floating-none : find? t part ≡ none → floating starred t (part ∷ next ∷ parts) ≡ false
  unfolding floating
  floating-none e = rw (e, floating)

  pub floating-some :
      {k : ℕ}
      → find? t part ≡ some k
      → floating starred t (part ∷ next ∷ parts)
        ≡ floating starred (drop (k + length part) t) (next ∷ parts)
  unfolding floating
  floating-some e = rw (e, floating)

module _ (filename pattern : Bytes) (count i place : ℕ) (part : Bytes)
    (l : place ≤ length filename) where
  round_first :
      0 ≡ i
      → part_round filename pattern count i place part
        ≡ ok (first_part pattern place (drop place filename) part)
  unfolding part_round
  round_first h = ground arith

  round_last :
      0 < i
      → i ≡ count - 1
      → part_round filename pattern count i place part
        ≡ ok (last_part pattern (drop place filename) part)
  unfolding part_round
  round_last h e = ground arith

  round_middle :
      0 < i
      → i ≢ count - 1
      → part_round filename pattern count i place part
        ≡ ok (find_part place (drop place filename) part)
  unfolding part_round
  round_middle h e = ground arith

module _ (filename pattern : Bytes) where
  loop_answer :
      (count i place : ℕ) (part : Bytes) (parts : List Bytes) {b : Bool}
      → part_round filename pattern count i place part ≡ ok (answer b)
      → parts_loop filename pattern count i place (part ∷ parts) ≡ ok b
  unfolding parts_loop
  loop_answer count i place part parts e = rw e

  loop_go_on :
      (count i place place' : ℕ) (part : Bytes) (parts : List Bytes)
      → part_round filename pattern count i place part ≡ ok (go_on place')
      → parts_loop filename pattern count i place (part ∷ parts)
        ≡ parts_loop filename pattern count (i + 1) place' parts
  unfolding parts_loop
  loop_go_on count i place place' part parts e = rw e

  last_part_answer :
      (t part : Bytes)
      → last_part pattern t part ≡ answer (floating (ends_with pattern stars) t (part ∷ []))
  unfolding last_part floating contains
  last_part_answer t part = elim (Bool-cases (ends_with pattern stars)) [
    | inl e ↦ rw e
    | inr e ↦ rw e
  ]

  -- The loop from its second round on.
  parts_loop-floating :
      (count i place : ℕ) (parts : List Bytes)
      → 0 < i
      → count ≡ i + length parts
      → place ≤ length filename
      → parts_loop filename pattern count i place parts
        ≡ ok (floating (ends_with pattern stars) (drop place filename) parts)
  unfolding floating
  parts_loop-floating count i place [] h e l = unfold parts_loop in refl
  parts_loop-floating count i place (part ∷ []) h e l = loop_answer count i place part [] (
      round_last filename pattern count i place part l h (omega arith)
      ∙ ap ok (last_part_answer (drop place filename) part))
  parts_loop-floating count i place (part ∷ next ∷ parts) h e l =
      let t = drop place filename in
      let r = round_middle filename pattern count i place part l h (λ e'. omega arith) in
      elim (Option-cases (find? t part)) [
        | inl n ↦
            loop_answer count i place part (next ∷ parts)
              (r ∙ ap ok (find_part-none place t part n))
            ∙ ap ok (sym (floating-none (ends_with pattern stars) t part next parts n))
        | inr (k, m) ↦
            let l' = find?-le t part m in
            let step = place + (k + length part) in
            loop_go_on count i place step part (next ∷ parts)
              (r ∙ ap ok (find_part-some place t part m))
            ∙ (parts_loop-floating count (i + 1) step (next ∷ parts) (omega arith) (omega arith)
                  (omega (arith, l', length-drop place filename l))
                ∙ ap ok (
                    ap (λ u. floating (ends_with pattern stars) u (next ∷ parts))
                      (drop-sum place (k + length part) filename)
                    ∙ sym (floating-some (ends_with pattern stars) t part next parts m)))
      ]

module _ (filename pattern : Bytes) where
  first_part-star :
      (place : ℕ) (t part : Bytes)
      → starts_with pattern stars ≡ true
      → first_part pattern place t part ≡ find_part place t part
  unfolding first_part
  first_part-star place t part h = rw (h, first_part)

  first_none :
      (count : ℕ) (part : Bytes) (parts : List Bytes)
      → starts_with pattern stars ≡ true
      → find? filename part ≡ none
      → parts_loop filename pattern count 0 0 (part ∷ parts) ≡ ok false
  first_none count part parts h e = loop_answer filename pattern count 0 0 part parts (
      round_first filename pattern count 0 0 part (omega arith) refl
      ∙ ap ok (first_part-star 0 filename part h ∙ find_part-none 0 filename part e))

  first_found :
      (count : ℕ) (part : Bytes) (parts : List Bytes) {k : ℕ}
      → starts_with pattern stars ≡ true
      → find? filename part ≡ some k
      → parts_loop filename pattern count 0 0 (part ∷ parts)
        ≡ parts_loop filename pattern count 1 (k + length part) parts
  first_found count part parts {k} h e =
      loop_go_on filename pattern count 0 0 (k + length part) part parts (
        round_first filename pattern count 0 0 part (omega arith) refl
        ∙ ap ok (
            first_part-star 0 filename part h
            ∙ (find_part-some 0 filename part e ∙ ap go_on (omega arith))))

  -- A pattern that begins with a star and has one part: the part may stand anywhere.
  pub match_parts_single :
      (part : Bytes)
      → starts_with pattern stars ≡ true
      → match_pattern_parts filename pattern (part ∷ []) ≡ ok (found (find? filename part))
  unfolding match_pattern_parts
  match_parts_single part h = elim (Option-cases (find? filename part)) [
    | inl n ↦ first_none 1 part [] h n ∙ ap (λ o. ok (found o)) (sym n)
    | inr (k, m) ↦
        first_found 1 part [] h m ∙ ((unfold parts_loop in refl) ∙ ap (λ o. ok (found o)) (sym m))
  ]

  pub match_parts_star :
      (part next : Bytes) (parts : List Bytes)
      → starts_with pattern stars ≡ true
      → match_pattern_parts filename pattern (part ∷ next ∷ parts)
        ≡ ok (floating (ends_with pattern stars) filename (part ∷ next ∷ parts))
  unfolding match_pattern_parts
  match_parts_star part next parts h =
      let count = suc (suc (length parts)) in
      elim (Option-cases (find? filename part)) [
        | inl n ↦
            first_none count part (next ∷ parts) h n
            ∙ ap ok (sym (floating-none (ends_with pattern stars) filename part next parts n))
        | inr (k, m) ↦
            first_found count part (next ∷ parts) h m
            ∙ (parts_loop-floating filename pattern count 1 (k + length part) (next ∷ parts)
                  (omega arith) (omega arith) (find?-le filename part m)
                ∙ ap ok (sym (floating-some (ends_with pattern stars) filename part next parts m)))
      ]

  -- A pattern that begins with a part.
  pub match_parts_plain :
      (part : Bytes) (parts : List Bytes)
      → starts_with pattern stars ≡ false
      → match_pattern_parts filename pattern (part ∷ parts)
        ≡ ok (
            if starts_with filename part
            then floating (ends_with pattern stars) (drop (length part) filename) parts
            else false)
  unfolding match_pattern_parts
  match_parts_plain part parts h =
      let count = suc (length parts) in
      let r = round_first filename pattern count 0 0 part (omega arith) refl in
      elim (Bool-cases (starts_with filename part)) [
        | inl s ↦
            loop_go_on filename pattern count 0 0 (length part) part parts
              (r ∙ ap ok (unfold first_part in (ground (arith, h, s))))
            ∙ (parts_loop-floating filename pattern count 1 (length part) parts (omega arith)
                  (omega arith) (length-starts filename part s)
                ∙ rw s refl)
        | inr n ↦
            loop_answer filename pattern count 0 0 part parts {b = false}
              (r ∙ ap ok (unfold first_part in (ground (arith, h, n))))
            ∙ rw n refl
      ]
