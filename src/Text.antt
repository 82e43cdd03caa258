-- ===== src/Text.antt =====
-- The members of std::string_view that the source calls, over byte strings. A position is a
-- std::size_t, and `npos` is what a search returns that finds nothing.
pub mod Search
use phud.Prelude.{
  ℕ, zero, suc, ◌+◌, Bool, true, false, ◌&&◌, Option, none, some, List, [], ◌∷◌, reverse, Bytes,
  length, take, drop, ltb, ◌==◌, if◌then◌else◌,
}
use phud.Prelude.Result.{Result, ok, err, out_of_range}
use phud.Prelude.Words.{npos}

-- s.starts_with(p)
abbrev pub starts_with : Bytes → Bytes → Bool
starts_with s [] = true
starts_with [] (d ∷ p) = false
starts_with (c ∷ s) (d ∷ p) = c == d && starts_with s p

-- s.ends_with(p)
abbrev pub ends_with : Bytes → Bytes → Bool
ends_with s p = starts_with (reverse s) (reverse p)

abbrev pub shift : Option ℕ → Option ℕ
shift none = none
shift (some i) = some (suc i)

-- The first place of `p` in `s`.
unfoldable pub find? : Bytes → Bytes → Option ℕ
find? [] p = if starts_with [] p then some 0 else none
find? (c ∷ s) p = if starts_with (c ∷ s) p then some 0 else shift (find? s p)

-- The last place of `p` in `s`.
unfoldable pub rfind? : Bytes → Bytes → Option ℕ
rfind? [] p = if starts_with [] p then some 0 else none
rfind? (c ∷ s) p = elim (rfind? s p) [
  | some i ↦ some (suc i)
  | none ↦ if starts_with (c ∷ s) p then some 0 else none
]

abbrev pub or_npos : Option ℕ → ℕ
or_npos none = npos
or_npos (some i) = i

abbrev pub plus : ℕ → Option ℕ → Option ℕ
plus k none = none
plus k (some i) = some (k + i)

-- s.find(p)
unfoldable pub find : Bytes → Bytes → ℕ
find s p = or_npos (find? s p)

-- s.find(p, from)
unfoldable pub find_from : Bytes → Bytes → ℕ → ℕ
find_from s p from =
    if ltb (length s) from then npos else or_npos (plus from (find? (drop from s) p))

-- s.rfind(p)
unfoldable pub rfind : Bytes → Bytes → ℕ
rfind s p = or_npos (rfind? s p)

-- s.substr(pos, count)
unfoldable pub substr : Bytes → ℕ → ℕ → Result Bytes
substr s pos count = if ltb (length s) pos then err out_of_range else ok (take count (drop pos s))

-- std::string_view::npos != s.find(p)
abbrev pub found : Option ℕ → Bool
found none = false
found (some i) = true

unfoldable pub contains : Bytes → Bytes → Bool
contains s p = found (find? s p)
