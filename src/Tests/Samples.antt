-- ===== src/Tests/Samples.antt =====
-- Sample parameters: whole numbers for the doubles, and the text itself for a point in time.
use phud.Prelude.{ℕ, ◌+◌, [], ◌∷◌, Bytes, true, some, if◌then◌else◌, take}
use phud.Strings.Floats.{Doubles, FromChars, parsed, malformed}
use phud.Strings.{scan, is_digit}
use phud.System.Times.{Times}

-- std::from_chars on whole numbers
abbrev read_digits : Bytes → FromChars ℕ
read_digits [] = malformed
read_digits (c ∷ s) = if is_digit c then parsed (scan (c ∷ s) 0) else malformed

abbrev pub whole : Doubles
whole = record {
  Double = ℕ;
  zero_double = 0;
  add_double = λ a b. a + b;
  is_positive = λ a. true;
  from_chars = read_digits;
}

abbrev pub nineteen : Times
nineteen = record { Time = Bytes; get_time = λ text format. some (take 19 text) }
