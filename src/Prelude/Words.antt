-- ===== src/Prelude/Words.antt =====
-- std::size_t (64 bits) with its wrap-around, and the signed integers.
use Prim.Native.Nat.{ℕ, ◌+◌, ◌-◌, ◌%◌, ◌^◌}
use phud.Prelude.Tests.{leb, if◌then◌else◌}

-- 2 ^ 64
abbrev pub size_mod : ℕ
size_mod = 2 ^ 64

-- std::string_view::npos
abbrev pub npos : ℕ
npos = 2 ^ 64 - 1

-- a + b and a - b in std::size_t. `-` on ℕ is truncated, so the modulus is added first.
abbrev pub add64 : ℕ → ℕ → ℕ
add64 a b = (a + b) % 2 ^ 64

abbrev pub sub64 : ℕ → ℕ → ℕ
sub64 a b = (a + 2 ^ 64 - b) % 2 ^ 64

-- `negsuc n` is -(n + 1).
pub data ℤ : Type 0 where
  pos : ℕ → ℤ
  negsuc : ℕ → ℤ

unfoldable pub neg : ℕ → ℤ
neg n = if leb n 0 then pos 0 else negsuc (n - 1)
