-- ===== src/TextFile/Seek.antt =====
-- Loops of the form `while (!test(line)) { tf.next(); }`, which the hand builders are full of.
use phud.Prelude.{
  ℕ, zero, suc, ◌+◌, ◌<◌, ◌≡◌, refl, ap, ◌∙◌, inl, inr, Bool, true, false, ◌||◌, Option, none, some,
  List, [], ◌∷◌, Bytes, ◌==◌, if◌then◌else◌, arith, Bool-cases, Option-cases, length, is_empty,
}
use phud.Prelude.Result.{ok, err, out_of_fuel}
use phud.TextFile.{TextFile, newline, line_of, behind_line, next, skip, seek}
use phud.TextFile.Reading.{IsGood, next_stuck, next_full}

-- The lines that the current line takes on, one call of next() after the other: those of the text,
-- and an empty one where the text is empty or ends with an end of line. The last one stays for ever.
unfoldable pub visited : Bytes → List Bytes
visited [] = [] ∷ []
visited (c ∷ s) =
    if c == newline
    then [] ∷ visited s
    else if is_empty s
    then (c ∷ []) ∷ []
    else on_head (◌∷◌ c) (visited s)
  where
    on_head : (Bytes → Bytes) → List Bytes → List Bytes
    on_head f [] = []
    on_head f (l ∷ ls) = f l ∷ ls

visited_full :
    (s r : Bytes)
    → behind_line s ≡ some r
    → (visited s ≡ line_of s ∷ visited r) × (length r < length s)
unfolding visited line_of behind_line
visited_full [] r h = absurd (cc h)
visited_full (c ∷ []) r h = ground arith
visited_full (c ∷ d ∷ s) r h = ground (arith, visited_full (d ∷ s) r)

visited_last : (s : Bytes) → behind_line s ≡ none → visited s ≡ line_of s ∷ []
unfolding visited line_of behind_line
visited_last [] h = refl
visited_last (c ∷ []) h = ground arith
visited_last (c ∷ d ∷ s) h = ground (arith, visited_last (d ∷ s))

-- The first line that passes the test.
abbrev pub first : (Bytes → Bool) → List Bytes → Option Bytes
first test [] = none
first test (l ∷ ls) = if test l then some l else first test ls

module _ (test : Bytes → Bool) where
  -- On a stream that is not good the line never changes, so a loop that has not stopped never does.
  seek_stuck :
      (fuel : ℕ) (tf : TextFile)
      → (tf.eof || tf.fail) ≡ true
      → test tf.line ≡ false
      → seek test fuel tf ≡ err out_of_fuel
  unfolding seek
  seek_stuck zero tf h e = refl
  seek_stuck (suc fuel) tf h e =
      let (_, l, f) = next_stuck tf h in
      rw (e, seek) (seek_stuck fuel (skip tf) (ground (arith, f)) (rw l e))

  seek_here :
      (fuel : ℕ) (tf : TextFile) → 0 < fuel → test tf.line ≡ true → seek test fuel tf ≡ ok tf
  unfolding seek
  seek_here zero tf p h = absurd (omega arith)
  seek_here (suc fuel) tf p h = rw (h, seek)

  seek_on :
      (fuel : ℕ) (tf : TextFile)
      → test tf.line ≡ false
      → seek test (suc fuel) tf ≡ seek test fuel (skip tf)
  unfolding seek
  seek_on fuel tf h = rw (h, seek)

  after_last :
      (tf : TextFile)
      → IsGood tf
      → behind_line tf.content ≡ none
      → ((skip tf).line ≡ line_of tf.content) × (((skip tf).eof || (skip tf).fail) ≡ true)
  unfolding skip next line_of behind_line
  after_last tf g h = ground arith

  after_full :
      (tf : TextFile) (r : Bytes)
      → IsGood tf
      → behind_line tf.content ≡ some r
      → IsGood (skip tf) × ((skip tf).line ≡ line_of tf.content) × ((skip tf).content ≡ r)
  unfolding skip
  after_full tf r g h = rw (next_full tf r g h, skip) ((g.0, g.1), refl, refl)

  -- On a good stream, and with more fuel than it has characters left and one, a loop that calls
  -- next() until the line passes a test stops on the first of the lines that does, if there is one.
  pub seek_good :
      (fuel : ℕ) (tf : TextFile) (l : Bytes)
      → IsGood tf
      → first test (tf.line ∷ visited tf.content) ≡ some l
      → length tf.content + 1 < fuel
      → (t : TextFile) × (seek test fuel tf ≡ ok t) × (t.line ≡ l) × (test l ≡ true)
  seek_good zero tf l g e h = absurd (omega arith)
  seek_good (suc fuel) tf l g e h = elim (Bool-cases (test tf.line)) [
    | inl p ↦ (tf, seek_here (suc fuel) tf (omega arith) p, ground (arith, p), ground (arith, p))
    | inr p ↦ elim (Option-cases (behind_line tf.content)) [
      | inl k ↦
          let (a, b) = after_last tf g k in
          let e' : test (line_of tf.content) ≡ true = ground (arith, visited_last tf.content k) in
          (
            skip tf,
            seek_on fuel tf p ∙ seek_here fuel (skip tf) (omega arith) (rw a e'),
            ground (arith, visited_last tf.content k),
            ground (arith, visited_last tf.content k),
          )
      | inr (r, k) ↦
          let (v, s) = visited_full tf.content r k in
          let (g', a, c) = after_full tf r g k in
          let (t, q, z, w) =
            seek_good fuel (skip tf) l g' (rw (a, c) (ground (arith, v))) (rw c (omega arith)) in
          (t, seek_on fuel tf p ∙ q, z, w)
    ]
  ]

  seek_forever :
      (fuel : ℕ) (tf : TextFile)
      → IsGood tf
      → first test (tf.line ∷ visited tf.content) ≡ none
      → seek test fuel tf ≡ err out_of_fuel
  seek_forever zero tf g e = unfold seek in refl
  seek_forever (suc fuel) tf g e =
      let p : test tf.line ≡ false = ground arith in
      elim (Option-cases (behind_line tf.content)) [
        | inl k ↦
            let (a, b) = after_last tf g k in
            seek_on fuel tf p
            ∙ seek_stuck fuel (skip tf) b (rw a (ground (arith, visited_last tf.content k)))
        | inr (r, k) ↦
            let (g', a, c) = after_full tf r g k in
            seek_on fuel tf p
            ∙ seek_forever fuel (skip tf) g'
                (rw (a, c) (ground (arith, visited_full tf.content r k)))
      ]

-- next() so many times
abbrev pub skips : ℕ → TextFile → TextFile
skips zero tf = tf
skips (suc n) tf = skips n (skip tf)

-- No current line, now or later, passes the test.
abbrev pub NoneAhead : (Bytes → Bool) → TextFile → Type 0
NoneAhead test tf = (n : ℕ) → test (skips n tf).line ≡ false

pub skips-skips : (n m : ℕ) (tf : TextFile) → skips m (skips n tf) ≡ skips (n + m) tf
skips-skips zero m tf = let e : m ≡ zero + m = omega arith in ap (λ (k : ℕ). skips k tf) e
skips-skips (suc n) m tf =
    let e : suc (n + m) ≡ suc n + m = omega arith in
    skips-skips n m (skip tf) ∙ ap (λ (k : ℕ). skips k tf) e

pub NoneAhead-skips :
    (test : Bytes → Bool) (n : ℕ) (tf : TextFile) → NoneAhead test tf → NoneAhead test (skips n tf)
NoneAhead-skips test n tf h m = rw skips-skips (h (n + m))

seek-misses :
    (test : Bytes → Bool) (n : ℕ) (tf : TextFile)
    → seek test (suc n) tf ≡ err out_of_fuel
    → test (skips n tf).line ≡ false
seek-misses test zero tf h = elim (Bool-cases (test tf.line)) [
  | inl e ↦ ground (arith, seek_here test (suc zero) tf (omega arith) e)
  | inr e ↦ e
]
seek-misses test (suc m) tf h = elim (Bool-cases (test tf.line)) [
  | inl e ↦ ground (arith, seek_here test (suc (suc m)) tf (omega arith) e)
  | inr e ↦ seek-misses test m (skip tf) (ground (arith, seek_on test (suc m) tf e))
]

pub NoneAhead-visited :
    (test : Bytes → Bool) (tf : TextFile)
    → IsGood tf
    → first test (tf.line ∷ visited tf.content) ≡ none
    → NoneAhead test tf
NoneAhead-visited test tf g e n = seek-misses test n tf (seek_forever test (suc n) tf g e)
