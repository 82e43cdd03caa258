-- ===== src/Prelude/Result.antt =====
-- What a C++ call can do besides returning: throw, abort on a failed assertion, run into undefined
-- behaviour, or loop for ever (`out_of_fuel`, with the fuel that the call was given).
use mathlib.Core.Bool.{Bool, true, false}
use mathlib.Core.Path.{◌≡◌, refl}
use mathlib.Core.Logic.{◌⊎◌, inl, inr}

pub data Error : Type 0 where
  assertion_failed : Error
  invalid_argument : Error
  out_of_range : Error
  phud_exception : Error
  time_exception : Error
  undefined_behaviour : Error
  -- an enumeration gets a value that none of its enumerators has
  unnamed_value : Error
  out_of_fuel : Error

-- An outcome: the error, or the value that was returned.
pub data Result {ℓ} (V : Type ℓ) : Type ℓ where
  err : Error → Result V
  ok : V → Result V

infixl 5 ◌>>=◌ ◌>>◌
-- The next statement runs only if this one returns.
abbrev pub ◌>>=◌ {ℓ κ} : {V : Type ℓ} {W : Type κ} → Result V → (V → Result W) → Result W
err why >>= next = err why
ok v >>= next = next v

abbrev pub ◌>>◌ {ℓ} : {W : Type ℓ} → Result (Unit {0}) → Result W → Result W
first >> second = first >>= λ done. second

pub Result-cases {ℓ} :
    {A : Type ℓ} (r : Result A) → ((a : A) × (r ≡ ok a)) ⊎ ((e : Error) × (r ≡ err e))
Result-cases (ok a) = inl (a, refl)
Result-cases (err e) = inr (e, refl)

-- What two statements return, the first one returned to the second.
pub >>=-eq-ok {ℓ κ} :
    {V : Type ℓ} {W : Type κ} (first : Result V) (next : V → Result W) {w : W}
    → (first >>= next) ≡ ok w
    → (v : V) × (first ≡ ok v) × (next v ≡ ok w)
>>=-eq-ok (err why) next h = cc
>>=-eq-ok (ok v) next h = (v, refl, h)

-- language/Validator.hpp: an assertion aborts in a debug build; with NDEBUG it is no code at all.
pub data Build : Type 0 where
  debug : Build
  release : Build

abbrev pub require : Build → Bool → Result (Unit {0})
require debug true = ok tt
require debug false = err assertion_failed
require release b = ok tt
