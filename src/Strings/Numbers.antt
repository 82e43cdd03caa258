-- ===== src/Strings/Numbers.antt =====
-- toSizeT and toInt (strings/StringViewUtils.cpp) against the values of digits.
use Prim.Native.Nat.{◌^◌, ◌≤◌}
use phud.Prelude.{
  ℕ, ◌+◌, ◌-◌, ◌*◌, ◌≡◌, ◌≢◌, refl, Bool, true, false, [], ◌∷◌, ◌++◌, Bytes, if◌then◌else◌, arith,
  All, ltb, leb,
}
use phud.Prelude.Result.{Result, ok, err, invalid_argument}
use phud.Prelude.Words.{ℤ, pos, neg}
use phud.Strings.{trim, scan, starts_with_digit, size_t_of, to_size_t, int_of, to_int}

abbrev pub IsDigit : ℕ → Type 0
IsDigit c = (48 ≤ c) × (c ≤ 57)

-- The number that digits spell behind `n`, with no bound.
abbrev pub value : Bytes → ℕ → ℕ
value [] n = n
value (c ∷ s) n = value s (n * 10 + (c - 48))

-- `digits` are the digits at the front of `s`.
pub record Digits (s digits : Bytes) : Type 0 where
  pub rest : Bytes
  pub splits : s ≡ digits ++ rest
  pub all_digits : All IsDigit digits
  pub ends : starts_with_digit rest ≡ false

scan-none : (s : Bytes) (n : ℕ) → starts_with_digit s ≡ false → scan s n ≡ n
unfolding scan
scan-none [] n h = refl
scan-none (c ∷ s) n h = rw h

scan-append :
    (ds r : Bytes) (n : ℕ)
    → All IsDigit ds
    → starts_with_digit r ≡ false
    → scan (ds ++ r) n ≡ value ds n
unfolding scan
scan-append [] r n h e = scan-none r n e
scan-append (c ∷ ds) r n h e = ground (arith, scan-append ds r (n * 10 + (c - 48)) h.1 e)

-- What is read from a text that starts with `digits`: a number below the bound, or an error.
abbrev pub bounded : Bytes → ℕ → Result ℕ
bounded ds bound = if ltb (value ds 0) bound then ok (value ds 0) else err invalid_argument

abbrev pub size_t_read : Bytes → Bytes → Result ℕ
size_t_read [] ds = ok 0
size_t_read (c ∷ s) [] = err invalid_argument
size_t_read (c ∷ s) (d ∷ ds) = bounded (d ∷ ds) (2 ^ 64)

size_t_of_lem :
    (s ds r : Bytes)
    → s ≡ ds ++ r
    → All IsDigit ds
    → starts_with_digit r ≡ false
    → size_t_of s ≡ size_t_read s ds
unfolding size_t_of
size_t_of_lem [] ds r e h k = refl
size_t_of_lem (c ∷ s) [] r e h k = ground arith
size_t_of_lem (c ∷ s) (d ∷ ds) r e h k = ground (arith, scan-append (d ∷ ds) r 0 h k)

-- toSizeT reads the digits at the front of the trimmed text and nothing behind them: an empty text
-- is 0, a text with no digit in front is refused, and so is a number that a 64-bit std::size_t
-- cannot hold.
pub to_size_t_lem : (s ds : Bytes) → Digits (trim s) ds → to_size_t s ≡ size_t_read (trim s) ds
unfolding to_size_t
to_size_t_lem s ds d = size_t_of_lem (trim s) ds d.rest d.splits d.all_digits d.ends

-- The int that a sign and digits spell.
abbrev pub signed : Bool → Bytes → Result ℤ
signed false [] = err invalid_argument
signed false (c ∷ ds) =
    if ltb (value (c ∷ ds) 0) (2 ^ 31) then ok (pos (value (c ∷ ds) 0)) else err invalid_argument
signed true [] = err invalid_argument
signed true (c ∷ ds) =
    if leb (value (c ∷ ds) 0) (2 ^ 31) then ok (neg (value (c ∷ ds) 0)) else err invalid_argument

int_of_plain :
    (ds r : Bytes)
    → ds ++ r ≢ []
    → All IsDigit ds
    → starts_with_digit r ≡ false
    → starts_with_digit ds ≡ true
    → int_of (ds ++ r) ≡ signed false ds
unfolding int_of
int_of_plain [] r n h k q = cc
int_of_plain (d ∷ ds) r n h k q = ground (arith, scan-append (d ∷ ds) r 0 h k)

int_of_minus :
    (ds r : Bytes)
    → All IsDigit ds
    → starts_with_digit r ≡ false
    → int_of (45 ∷ (ds ++ r)) ≡ signed true ds
unfolding int_of
int_of_minus [] r h k = ground arith
int_of_minus (d ∷ ds) r h k = ground (arith, scan-append (d ∷ ds) r 0 h k)

abbrev pub sign : Bool → Bytes
sign true = 45 ∷ []
sign false = []

-- `s` is a sign, digits, and then something else.
pub record SignedDigits (s : Bytes) (minus : Bool) (digits : Bytes) : Type 0 where
  pub rest : Bytes
  pub splits : s ≡ sign minus ++ (digits ++ rest)
  pub some_digits : digits ≢ []
  pub all_digits : All IsDigit digits
  pub ends : starts_with_digit rest ≡ false

-- toInt on a trimmed text that is an optional minus sign, at least one digit, and then something
-- else is the value of the digits with its sign if a 32-bit int holds it, and otherwise an error.
pub to_int_lem :
    (s ds : Bytes) (minus : Bool) → SignedDigits (trim s) minus ds → to_int s ≡ signed minus ds
unfolding to_int
to_int_lem s [] minus d = absurd (d.some_digits refl)
to_int_lem s (c ∷ ds) false d =
    rw d.splits
      (int_of_plain (c ∷ ds) d.rest (λ e. cc) d.all_digits d.ends (ground (arith, d.all_digits)))
to_int_lem s (c ∷ ds) true d = rw d.splits (int_of_minus (c ∷ ds) d.rest d.all_digits d.ends)
