-- ===== src/Filesystem/Patterns.antt =====
-- filesystem/FileUtils.cpp: matching a file name with a pattern, in which '*' stands for any text.
-- The positions are those of the source; a view behind the end of a text is std::out_of_range.
use phud.Prelude.{
  ℕ, zero, suc, ◌+◌, ◌-◌, Bool, true, false, not, ◌&&◌, ◌||◌, none, some, List, [], ◌∷◌, Bytes,
  length, take, drop, get_elem?, is_empty, bytes_eq, ltb, ◌==◌, if◌then◌else◌,
}
use phud.Prelude.Result.{Result, ok, err, out_of_range, Build, require, ◌>>=◌, ◌>>◌}
use phud.Text.{starts_with, ends_with, find?, contains}

abbrev pub star : ℕ
star = 42

abbrev pub stars : Bytes
stars = star ∷ []

-- s.substr(pos)
abbrev pub substr_from : Bytes → ℕ → Result Bytes
substr_from s place = if ltb (length s) place then err out_of_range else ok (drop place s)

abbrev pub is_star_at : Bytes → ℕ → Bool
is_star_at pattern place = elim (get_elem? pattern place) [ none ↦ false | some c ↦ c == star ]

-- pos == pattern.size() or pattern[pos] == '*'
abbrev pub part_ends_at : Bytes → ℕ → Bool
part_ends_at pattern place = place == length pattern || is_star_at pattern place

-- the part that ends here is kept where it is not empty
abbrev pub push_part : Bytes → ℕ → ℕ → List Bytes → List Bytes
push_part pattern start place parts =
    if part_ends_at pattern place && ltb start place
    then take (place - start) (drop start pattern) ∷ parts
    else parts

-- the loop over pos, by the rounds that are left
unfoldable pub split_loop : Bytes → ℕ → ℕ → ℕ → List Bytes
split_loop pattern zero place start = []
split_loop pattern (suc rounds) place start = push_part pattern start place (
    split_loop pattern rounds (place + 1) (if part_ends_at pattern place then place + 1 else start))

unfoldable pub split_pattern_by_wildcards : Bytes → List Bytes
unfolding split_loop
split_pattern_by_wildcards pattern = split_loop pattern (length pattern + 1) 0 0

-- What one round of the loop does: it returns, or goes on with a new filenamePos.
pub data Round : Type 0 where
  answer : Bool → Round
  go_on : ℕ → Round

-- Find this part anywhere in the remaining filename.
unfoldable pub find_part : ℕ → Bytes → Bytes → Round
find_part place rest part = elim (find? rest part) [
  | none ↦ answer false
  | some found_pos ↦ go_on (place + (found_pos + length part))
]

unfoldable pub first_part : Bytes → ℕ → Bytes → Bytes → Round
unfolding find_part
first_part pattern place rest part =
    if not (starts_with pattern stars)
    then (if starts_with rest part then go_on (place + length part) else answer false)
    else find_part place rest part

unfoldable pub last_part : Bytes → Bytes → Bytes → Round
last_part pattern rest part =
    if not (ends_with pattern stars)
    then answer (ends_with rest part)
    else answer (contains rest part)

unfoldable pub part_round : Bytes → Bytes → ℕ → ℕ → ℕ → Bytes → Result Round
unfolding first_part last_part find_part
part_round filename pattern count i place part = do
  rest ← substr_from filename place
  ok (
      if 0 == i
      then first_part pattern place rest part
      else if i == count - 1
      then last_part pattern rest part
      else find_part place rest part)

-- the loop over the parts that are left, the number of all parts, and the index of the next one
unfoldable pub parts_loop : Bytes → Bytes → ℕ → ℕ → ℕ → List Bytes → Result Bool
unfolding part_round
parts_loop filename pattern count i place [] = ok true
parts_loop filename pattern count i place (part ∷ parts) =
    part_round filename pattern count i place part >>= λ r. elim r [
      | answer b ↦ ok b
      | go_on place' ↦ parts_loop filename pattern count (i + 1) place' parts
    ]

unfoldable pub match_pattern_parts : Bytes → Bytes → List Bytes → Result Bool
unfolding parts_loop
match_pattern_parts filename pattern parts = parts_loop filename pattern (length parts) 0 0 parts

unfoldable pub matches_pattern : Build → Bytes → Bytes → Result Bool
unfolding split_pattern_by_wildcards match_pattern_parts
matches_pattern b filename pattern = do
  require b (not (is_empty filename))
  require b (not (is_empty pattern))
  if length (split_pattern_by_wildcards pattern) == 1 && not (contains pattern stars)
      then ok (bytes_eq filename pattern)
      else match_pattern_parts filename pattern (split_pattern_by_wildcards pattern)
