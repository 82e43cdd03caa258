-- ===== src/Filesystem/Parts.antt =====
-- The loops of the pattern matcher against plain recursions: the parts of a pattern, and a match of
-- the parts behind a star.
use phud.Prelude.{
  ℕ, suc, ◌+◌, ◌-◌, ◌≡◌, refl, sym, ap, ◌∙◌, inl, inr, Bool, true, false, none, some, List, [], ◌∷◌,
  ◌++◌, append-nil, append_assoc, Bytes, length, get_elem?, ltb, arith, ◌==◌, if◌then◌else◌,
  Bool-cases, drop-append, take-append, length-append,
}
use phud.Filesystem.Patterns.{
  star, is_star_at, part_ends_at, push_part, split_loop, split_pattern_by_wildcards,
}

-- A part is kept where it is not empty.
abbrev pub emit : Bytes → List Bytes → List Bytes
emit [] parts = parts
emit (c ∷ part) parts = (c ∷ part) ∷ parts

-- The parts of a pattern, the first of which has begun.
unfoldable pub pieces : Bytes → Bytes → List Bytes
pieces part [] = emit part []
pieces part (c ∷ pattern) = elim (c == star) [
  | true ↦ emit part (pieces [] pattern)
  | false ↦ pieces (part ++ (c ∷ [])) pattern
]

get_elem?-append : (s : Bytes) (c : ℕ) (t : Bytes) → get_elem? (s ++ (c ∷ t)) (length s) ≡ some c
get_elem?-append [] c t = refl
get_elem?-append (d ∷ s) c t = get_elem?-append s c t

-- A round of the loop at a place behind `pre` and the part that has begun.
pub record Stand (whole : Bytes) (place start : ℕ) (pre part rest : Bytes) : Type 0 where
  pub text : whole ≡ pre ++ (part ++ rest)
  pub here : place ≡ length pre + length part
  pub begun : start ≡ length pre

push_part-emit :
    {whole : Bytes} {place start : ℕ} (pre part rest : Bytes) (parts : List Bytes)
    → Stand whole place start pre part rest
    → part_ends_at whole place ≡ true
    → push_part whole start place parts ≡ emit part parts
push_part-emit {place} {start} pre [] rest parts h e =
    let l : ltb start place ≡ false = ground (arith, h.here, h.begun) in rw (e, l)
push_part-emit {place} {start} pre (c ∷ part) rest parts h e =
    let l : ltb start place ≡ true = ground (arith, h.here, h.begun) in
    let n : place - start ≡ suc (length part) = omega (arith, h.here, h.begun) in
    rw (e, l, n, h.begun, h.text, drop-append pre ((c ∷ part) ++ rest), take-append part rest)

push_part-skip :
    (whole : Bytes) (place start : ℕ) (parts : List Bytes)
    → part_ends_at whole place ≡ false
    → push_part whole start place parts ≡ parts
push_part-skip whole place start parts e = rw e

is_star_at-Stand :
    {whole : Bytes} {place start : ℕ} (pre part : Bytes) (c : ℕ) (rest : Bytes)
    → Stand whole place start pre part (c ∷ rest)
    → is_star_at whole place ≡ (c == star)
is_star_at-Stand pre part c rest h =
    let l = length-append pre part in
    let e = h.here ∙ sym l in
    let g = get_elem?-append (pre ++ part) c rest in
    rw (h.text, sym (append_assoc pre part (c ∷ rest)), e)
      (ap (λ o. elim o [ none ↦ false | some d ↦ d == star ]) g)

part_ends_at-Stand :
    {whole : Bytes} {place start : ℕ} (pre part : Bytes) (c : ℕ) (rest : Bytes)
    → Stand whole place start pre part (c ∷ rest)
    → part_ends_at whole place ≡ (c == star)
part_ends_at-Stand {whole} {place} pre part c rest h =
    let l : length whole ≡ length pre + (length part + suc (length rest)) =
      ap length h.text
      ∙ (length-append pre (part ++ (c ∷ rest))
          ∙ ap (λ n. length pre + n) (length-append part (c ∷ rest))) in
    let n : (place == length whole) ≡ false = ground (arith, l, h.here) in
    rw n (is_star_at-Stand pre part c rest h)

part_ends_at_end :
    {whole : Bytes} {place start : ℕ} (pre part : Bytes)
    → Stand whole place start pre part []
    → part_ends_at whole place ≡ true
part_ends_at_end {whole} {place} pre part h =
    let l : length whole ≡ length pre + length part =
      ap length h.text
      ∙ (length-append pre (part ++ []) ∙ ap (λ s. length pre + length s) (append-nil part)) in
    let n : (place == length whole) ≡ true = ground (arith, l, h.here) in rw n

pieces-cons :
    (part : Bytes) (c : ℕ) (pattern : Bytes) {b : Bool}
    → (c == star) ≡ b
    → pieces part (c ∷ pattern)
      ≡ elim b [ true ↦ emit part (pieces [] pattern) | false ↦ pieces (part ++ (c ∷ [])) pattern ]
unfolding pieces
pieces-cons part c pattern e =
    ap
      (λ b. elim b [
        | true ↦ emit part (pieces [] pattern)
        | false ↦ pieces (part ++ (c ∷ [])) pattern
      ])
      e

pub pieces-star :
    (part : Bytes) (c : ℕ) (pattern : Bytes)
    → (c == star) ≡ true
    → pieces part (c ∷ pattern) ≡ emit part (pieces [] pattern)
pieces-star part c pattern e = pieces-cons part c pattern e

pub pieces-other :
    (part : Bytes) (c : ℕ) (pattern : Bytes)
    → (c == star) ≡ false
    → pieces part (c ∷ pattern) ≡ pieces (part ++ (c ∷ [])) pattern
pieces-other part c pattern e = pieces-cons part c pattern e

split_loop-round :
    (whole : Bytes) (place start n : ℕ) {b : Bool}
    → part_ends_at whole place ≡ b
    → split_loop whole (suc n) place start
      ≡ push_part whole start place
          (split_loop whole n (place + 1) (if b then place + 1 else start))
unfolding split_loop
split_loop-round whole place start n e =
    ap
      (λ b.
        push_part whole start place
          (split_loop whole n (place + 1) (if b then place + 1 else start)))
      e

pub split_loop-pieces :
    (pre part rest whole : Bytes) (place start : ℕ)
    → Stand whole place start pre part rest
    → split_loop whole (suc (length rest)) place start ≡ pieces part rest
unfolding split_loop pieces
split_loop-pieces pre part [] whole place start h =
    push_part-emit pre part [] [] h (part_ends_at_end pre part h)
split_loop-pieces pre part (c ∷ rest) whole place start h =
    let e = part_ends_at-Stand pre part c rest h in
    elim (Bool-cases (c == star)) [
      | inl s ↦
          let next : Stand whole (place + 1) (place + 1) (pre ++ (part ++ (c ∷ []))) [] rest =
            record {
              text =
                  h.text
                  ∙ (ap (λ t. pre ++ t) (sym (append_assoc part (c ∷ []) rest))
                      ∙ sym (append_assoc pre (part ++ (c ∷ [])) rest));
              here = omega (
                arith,
                h.here,
                length-append pre (part ++ (c ∷ [])),
                length-append part (c ∷ []),
              );
              begun = omega (
                arith,
                h.here,
                length-append pre (part ++ (c ∷ [])),
                length-append part (c ∷ []),
              );
            } in
          let ih =
            split_loop-pieces (pre ++ (part ++ (c ∷ []))) [] rest whole (place + 1) (place + 1)
              next in
          split_loop-round whole place start (suc (length rest)) (e ∙ s)
          ∙ (ap (push_part whole start place) ih
              ∙ (push_part-emit pre part (c ∷ rest) (pieces [] rest) h (e ∙ s)
                  ∙ sym (pieces-cons part c rest s)))
      | inr n ↦
          let next : Stand whole (place + 1) start pre (part ++ (c ∷ [])) rest = record {
            text = h.text ∙ ap (λ t. pre ++ t) (sym (append_assoc part (c ∷ []) rest));
            here = omega (arith, h.here, length-append part (c ∷ []));
            begun = h.begun;
          } in
          let ih = split_loop-pieces pre (part ++ (c ∷ [])) rest whole (place + 1) start next in
          split_loop-round whole place start (suc (length rest)) (e ∙ n)
          ∙ (push_part-skip whole place start _ (e ∙ n) ∙ (ih ∙ sym (pieces-cons part c rest n)))
    ]

pub split_pattern-pieces :
    (pattern : Bytes) → split_pattern_by_wildcards pattern ≡ pieces [] pattern
unfolding split_pattern_by_wildcards
split_pattern-pieces pattern =
    let n : length pattern + 1 ≡ suc (length pattern) = omega arith in
    rw n (
      split_loop-pieces [] [] pattern pattern 0 0
        (record { text = refl; here = refl; begun = refl }))
