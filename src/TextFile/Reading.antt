-- ===== src/TextFile/Reading.antt =====
-- Loops over next() (filesystem/TextFile.cpp), and the lines of a text.
use phud.Prelude.{
  ℕ, zero, suc, ◌+◌, ◌<◌, ◌≡◌, ◌≢◌, refl, sym, ap, ◌∙◌, inl, inr, Bool, true, false, ◌||◌, none,
  some, List, [], ◌∷◌, Bytes, ◌==◌, if◌then◌else◌, arith, Option-cases, length,
}
use phud.TextFile.{TextFile, open_file, newline, line_of, behind_line, next, skip}

-- `c` in front of the first line, which is a new one where there is none.
abbrev pub add : ℕ → List Bytes → List Bytes
add c [] = (c ∷ []) ∷ []
add c (l ∷ ls) = (c ∷ l) ∷ ls

-- The lines of a text. An end of line at the end of the text opens no line.
unfoldable pub lines : Bytes → List Bytes
lines [] = []
lines (c ∷ s) = if c == newline then [] ∷ lines s else add c (lines s)

abbrev pub IsGood : TextFile → Type 0
IsGood tf = (tf.eof ≡ false) × (tf.fail ≡ false)

-- while (tf.next()) { use(tf.getLine()); }
unfoldable pub read_lines : ℕ → TextFile → List Bytes
read_lines zero tf = []
read_lines (suc fuel) tf = elim (next tf).1 [
  | true ↦ (skip tf).line ∷ read_lines fuel (skip tf)
  | false ↦ []
]

pub lines_full :
    (s r : Bytes) → behind_line s ≡ some r → (lines s ≡ line_of s ∷ lines r) × (length r < length s)
unfolding lines line_of behind_line
lines_full [] r h = cc
lines_full (c ∷ s) r h = ground (arith, lines_full s r)

pub lines_last :
    (c : ℕ) (s : Bytes) → behind_line (c ∷ s) ≡ none → lines (c ∷ s) ≡ line_of (c ∷ s) ∷ []
unfolding lines line_of behind_line
lines_last c [] h = ground arith
lines_last c (d ∷ s) h = ground (arith, lines_last d s)

-- On a stream that is not good next() reads nothing and leaves the line as it was.
pub next_stuck :
    (tf : TextFile)
    → (tf.eof || tf.fail) ≡ true
    → ((next tf).1 ≡ false) × ((skip tf).line ≡ tf.line) × ((skip tf).fail ≡ true)
unfolding next skip
next_stuck tf h = ground arith

-- The three things that next() does on a good stream.
pub next_full :
    (tf : TextFile) (r : Bytes)
    → IsGood tf
    → behind_line tf.content ≡ some r
    → next tf
      ≡ (record tf { content = r; line = line_of tf.content; line_nb = tf.line_nb + 1 }, true)
unfolding next
next_full tf r g h = ground arith

pub next_last :
    (tf : TextFile)
    → IsGood tf
    → behind_line tf.content ≡ none
    → tf.content ≢ []
    → next tf ≡ (
      record tf { content = []; eof = true; line = line_of tf.content; line_nb = tf.line_nb + 1 },
      true,
    )
unfolding next
next_last tf g h k = ground arith

pub next_end :
    (tf : TextFile)
    → IsGood tf
    → tf.content ≡ []
    → next tf ≡ (record tf { content = []; eof = true; fail = true; line = [] }, false)
unfolding next line_of behind_line
next_end tf g h = ground arith

read_stuck : (fuel : ℕ) (tf : TextFile) → (tf.eof || tf.fail) ≡ true → read_lines fuel tf ≡ []
unfolding read_lines
read_stuck zero tf h = refl
read_stuck (suc fuel) tf h = rw ((next_stuck tf h).0, read_lines)

read_lines-more :
    (fuel : ℕ) (tf t : TextFile)
    → next tf ≡ (t, true)
    → read_lines (suc fuel) tf ≡ t.line ∷ read_lines fuel t
unfolding read_lines skip
read_lines-more fuel tf t e =
    ap {B = List Bytes}
      (λ (p : TextFile × Bool). elim p.1 [ true ↦ p.0.line ∷ read_lines fuel p.0 | false ↦ [] ]) e

read_lines-done :
    (fuel : ℕ) (tf t : TextFile) → next tf ≡ (t, false) → read_lines (suc fuel) tf ≡ []
unfolding read_lines
read_lines-done fuel tf t e = rw (e, read_lines)

read_lines-last :
    (fuel : ℕ) (tf : TextFile) (s : Bytes)
    → tf.content ≡ s
    → IsGood tf
    → behind_line tf.content ≡ none
    → read_lines (suc fuel) tf ≡ lines s
read_lines-last fuel tf [] k g e =
    read_lines-done fuel tf _ (next_end tf g k) ∙ (unfold lines in refl)
read_lines-last fuel tf (c ∷ s) k g e =
    read_lines-more fuel tf _ (next_last tf g e (rw k (λ q. cc)))
    ∙ ap (◌∷◌ (line_of tf.content)) (read_stuck fuel _ refl)
    ∙ rw k (sym (lines_last c s (rw k at e)))

-- Enough rounds read exactly the lines of what is left.
read_lines-good :
    (fuel : ℕ) (tf : TextFile)
    → IsGood tf
    → length tf.content < fuel
    → read_lines fuel tf ≡ lines tf.content
read_lines-good zero tf g h = absurd (omega arith)
read_lines-good (suc fuel) tf g h = elim (Option-cases (behind_line tf.content)) [
  | inl e ↦ read_lines-last fuel tf tf.content refl g e
  | inr (r, e) ↦
      read_lines-more fuel tf _ (next_full tf r g e)
      ∙ ap (◌∷◌ (line_of tf.content))
          (read_lines-good fuel _ g (omega (arith, lines_full tf.content r e)))
      ∙ sym (lines_full tf.content r e).0
]

-- With more fuel than the file has characters, a loop over next() hands out every line of the file
-- once and in order, with or without an end of line at the end of the file, and then stops.
pub read_lines-lines :
    (content : Bytes) (fuel : ℕ)
    → length content < fuel
    → read_lines fuel (open_file content) ≡ lines content
unfolding open_file
read_lines-lines content fuel h = read_lines-good fuel (open_file content) (refl, refl) h
