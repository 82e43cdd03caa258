-- ===== src/TextFile.antt =====
-- filesystem/TextFile.hpp and TextFile.cpp: a reader over a std::stringstream, with the current line
-- and its number. The stream is what is left to read and its two flags. The line number is an int in
-- the source; the model counts without a bound.
-- containsExact is for tokens that are not empty: on an empty one its m_line.at can throw, which ends the
-- program since it is noexcept.
pub mod Reading
pub mod Seek
use phud.Prelude.{
  ℕ, zero, suc, ◌+◌, ◌-◌, Bool, true, false, not, ◌&&◌, ◌||◌, Option, none, some, List, [], ◌∷◌,
  Bytes, length, get_elem?, is_empty, ltb, leb, ◌==◌, if◌then◌else◌,
}
use phud.Prelude.Result.{Result, ok, err, out_of_fuel}
use phud.Text
use phud.Text.{find?}
use phud.Strings

pub record TextFile : Type 0 where
  -- m_content: the characters that are not read yet, std::ios::eofbit and std::ios::failbit
  pub content : Bytes
  pub eof : Bool
  pub fail : Bool
  pub line : Bytes
  pub line_nb : ℕ

-- TextFile::TextFile on a file's content
unfoldable pub open_file : Bytes → TextFile
open_file content = record { content = content; eof = false; fail = false; line = []; line_nb = 0 }

abbrev pub newline : ℕ
newline = 10

-- The characters up to the first end of line, and what follows it: `none` where the text ends first.
unfoldable pub line_of : Bytes → Bytes
line_of [] = []
line_of (c ∷ s) = if c == newline then [] else c ∷ line_of s

unfoldable pub behind_line : Bytes → Option Bytes
behind_line [] = none
behind_line (c ∷ s) = if c == newline then some s else behind_line s

-- std::getline on a good stream. It clears the line first. Where the text ends before an end of line
-- it sets eofbit, and failbit too if it has read no character.
unfoldable pub extract : TextFile → TextFile
extract tf = elim (behind_line tf.content) [
  | some rest ↦ record tf { content = rest; line = line_of tf.content }
  | none ↦ record tf {
    content = [];
    eof = true;
    fail = is_empty tf.content;
    line = line_of tf.content;
  }
]

-- std::getline: on a stream that is not good it sets failbit and leaves the line alone.
unfoldable pub getline : TextFile → TextFile
unfolding extract
getline tf = if tf.eof || tf.fail then record tf { fail = true } else extract tf

unfoldable pub count_line : TextFile → TextFile × Bool
count_line tf = if not tf.fail then (record tf { line_nb = tf.line_nb + 1 }, true) else (tf, false)

-- TextFile::next
unfoldable pub next : TextFile → TextFile × Bool
unfolding getline count_line
next tf = count_line (getline tf)

-- next() where the result is not used
unfoldable pub skip : TextFile → TextFile
unfolding next
skip tf = (next tf).0

pub get_line : TextFile → Bytes
get_line tf = tf.line

pub get_line_index : TextFile → ℕ
get_line_index tf = tf.line_nb

pub line_is_empty : TextFile → Bool
line_is_empty tf = is_empty tf.line

pub starts_with : TextFile → Bytes → Bool
starts_with tf p = Text.starts_with tf.line p

pub ends_with : TextFile → Bytes → Bool
ends_with tf p = Text.ends_with tf.line p

pub find : TextFile → Bytes → ℕ
find tf p = Text.find tf.line p

pub contains : TextFile → Bytes → Bool
contains tf p = Text.contains tf.line p

pub trim : TextFile → TextFile
trim tf = record tf { line = Strings.trim tf.line }

-- ('A' > c) or (c > 'z'), and what m_line.at(offset) throws on is ruled out by the test before it
abbrev pub not_letter : Option ℕ → Bool
not_letter none = true
not_letter (some c) = ltb c 65 || ltb 122 c

abbrev pub is_blank : Option ℕ → Bool
is_blank none = false
is_blank (some c) = c == 32

-- containsExact behind its search, on the line, the token and the place where it was found
unfoldable pub exact_at : Bytes → Bytes → Option ℕ → Bool
exact_at line s none = false
exact_at line s (some place) =
    let offset = place + length s in
    if leb (length line) offset
    then true
    else if is_blank (get_elem? line (offset - 1))
    then true
    else not_letter (get_elem? line offset)

unfoldable pub contains_exact : TextFile → Bytes → Bool
unfolding exact_at
contains_exact tf s = exact_at tf.line s (find? tf.line s)

unfoldable pub contains_one_of : TextFile → List Bytes → Bool
unfolding contains_exact
contains_one_of tf [] = false
contains_one_of tf (p ∷ patterns) = contains_exact tf p || contains_one_of tf patterns

-- while (!test(line)) { tf.next(); }
unfoldable pub seek : (Bytes → Bool) → ℕ → TextFile → Result TextFile
unfolding skip
seek test zero tf = err out_of_fuel
seek test (suc fuel) tf = elim (test tf.line) [ true ↦ ok tf | false ↦ seek test fuel (skip tf) ]
