-- ===== src/Strings/Floats.antt =====
-- The C++ type double and the std::from_chars that reads one: the model takes both as they come.
use phud.Prelude.{Bool, Bytes}

-- What std::from_chars reports: a value, std::errc::invalid_argument or result_out_of_range.
pub data FromChars (A : Type 0) : Type 0 where
  parsed : A → FromChars A
  malformed : FromChars A
  overflown : FromChars A

pub record Doubles : Type 1 where
  pub Double : Type 0
  pub zero_double : Double
  pub add_double : Double → Double → Double
  -- 0 <= d
  pub is_positive : Double → Bool
  pub from_chars : Bytes → FromChars Double
