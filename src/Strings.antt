-- ===== src/Strings.antt =====
-- strings/StringViewUtils.cpp and strings/StringUtils.hpp: trimming, replacing, and reading numbers.
pub mod Floats
pub mod Trim
pub mod Replace
pub mod Numbers
pub mod BuyIn
use Prim.Native.Nat.{◌<◌}
use phud.Prelude.{
  ℕ, zero, suc, ◌+◌, ◌-◌, ◌*◌, ◌^◌, Bool, true, false, ◌&&◌, ◌||◌, Option, none, some, List, [],
  ◌∷◌, ◌++◌, map, reverse, Bytes, length, take, drop, is_empty, ltb, leb, ◌==◌, if◌then◌else◌,
}
use phud.Prelude.Result.{Result, ok, err, invalid_argument, out_of_fuel}
use phud.Prelude.Words.{ℤ, pos, neg, npos}
use phud.Text.{find?}
use Floats.{Doubles, FromChars, parsed, malformed, overflown}

unfoldable pub is_space : ℕ → Bool
is_space c = c == 32 || c == 12 || c == 10 || c == 13 || c == 9 || c == 11

-- std::ranges::find_if_not(s, isSpace), and what stands from there on
unfoldable pub drop_spaces : Bytes → Bytes
drop_spaces [] = []
drop_spaces (c ∷ s) = if is_space c then drop_spaces s else c ∷ s

unfoldable pub trim : Bytes → Bytes
trim s = reverse (drop_spaces (reverse (drop_spaces s)))

-- replaceAll with two characters: std::ranges::replace
unfoldable pub replace_char : Bytes → ℕ → ℕ → Bytes
replace_char s old_c new_c = map (λ c. if c == old_c then new_c else c) s

-- ret.replace(pos, old.size(), new)
abbrev pub replace_at : Bytes → ℕ → ℕ → Bytes → Bytes
replace_at s place count new_str = take place s ++ (new_str ++ drop count (drop place s))

-- replaceAll with two strings: each round searches from the start again
unfoldable pub replace_all : ℕ → Bytes → Bytes → Bytes → Result Bytes
replace_all zero s old_str new_str = err out_of_fuel
replace_all (suc fuel) s old_str new_str = elim (find? s old_str) [
  | none ↦ ok s
  | some place ↦ replace_all fuel (replace_at s place (length old_str) new_str) old_str new_str
]

-- as SQL doesn't like simple quotes in strings
unfoldable pub sanitize : Bytes → Bytes
sanitize s = replace_char (trim s) 39 45

abbrev pub is_digit : ℕ → Bool
is_digit c = leb 48 c && leb c 57

-- std::from_chars on digits: the value of the digits behind `n`, up to the first other character
unfoldable pub scan : Bytes → ℕ → ℕ
scan [] n = n
scan (c ∷ s) n = let rest = scan s (n * 10 + (c - 48)) in if is_digit c then rest else n

abbrev pub starts_with_digit : Bytes → Bool
starts_with_digit [] = false
starts_with_digit (c ∷ s) = is_digit c

-- fromStringView<std::size_t>: an unsigned type takes no sign
unfoldable pub size_t_of : Bytes → Result ℕ
unfolding scan
size_t_of [] = ok 0
size_t_of (c ∷ s) =
    if is_digit c
    then (if ltb (scan (c ∷ s) 0) (2 ^ 64) then ok (scan (c ∷ s) 0) else err invalid_argument)
    else err invalid_argument

unfoldable pub to_size_t : Bytes → Result ℕ
unfolding size_t_of
to_size_t s = size_t_of (trim s)

-- fromStringView<int>: a minus sign may stand first
unfoldable pub int_of : Bytes → Result ℤ
unfolding scan
int_of [] = ok (pos 0)
int_of (c ∷ s) =
    if is_digit c
    then (if ltb (scan (c ∷ s) 0) (2 ^ 31) then ok (pos (scan (c ∷ s) 0)) else err invalid_argument)
    else if c == 45 && starts_with_digit s
    then (if leb (scan s 0) (2 ^ 31) then ok (neg (scan s 0)) else err invalid_argument)
    else err invalid_argument

unfoldable pub to_int : Bytes → Result ℤ
unfolding int_of
to_int s = int_of (trim s)

module _ (fp : Doubles) where
  open fp use {Double, zero_double, add_double, from_chars}

  -- `ret` keeps its 0 where std::from_chars fails
  unfoldable pub double_of : FromChars Double → Double
  double_of (parsed d) = d
  double_of malformed = zero_double
  double_of overflown = zero_double

  unfoldable pub to_double : Bytes → Double
  unfolding double_of
  to_double amount = double_of (from_chars (trim amount))

  unfoldable pub to_amount : Bytes → Double
  unfolding to_double
  to_amount amount = to_double (replace_char amount 44 46)

  unfoldable pub process_token : Bytes → Double
  unfolding to_double
  process_token [] = zero_double
  process_token (c ∷ s) = to_double (c ∷ s)

  abbrev pub is_numeric_char_or_dot : ℕ → Bool
  is_numeric_char_or_dot c = is_digit c || c == 46

  abbrev pub normalize_decimal_separator : ℕ → ℕ
  normalize_decimal_separator c = if c == 44 then 46 else c

  -- the characters that one round of the loop adds to the token
  unfoldable pub kept : ℕ → Bytes
  kept c =
      if is_numeric_char_or_dot c
      then normalize_decimal_separator c ∷ []
      else if 44 == c
      then 46 ∷ []
      else []

  -- the loop of toBuyIn over its two variables, and the last token behind it
  unfoldable pub buy_in_loop : Bytes → Bytes → Double → Double
  unfolding kept process_token
  buy_in_loop [] token result = add_double result (process_token token)
  buy_in_loop (c ∷ s) token result = elim (c == 43) [
    | true ↦ buy_in_loop s [] (add_double result (process_token token))
    | false ↦ buy_in_loop s (token ++ kept c) result
  ]

  unfoldable pub to_buy_in : Bytes → Double
  unfolding buy_in_loop
  to_buy_in s = buy_in_loop s [] zero_double
