-- ===== src/Program/Stop.antt =====
-- What ends the reading of the configuration: the exceptions of phud/ with what their messages name, and
-- the failures of the functions that it calls. gsl::at out of range ends the program.
use phud.Prelude.{ℕ, List, Bytes, ◌≡◌, refl, ◌⊎◌, inl, inr}
use phud.Prelude.Result.{Error, Result, ok, err}

pub data Stop : Type 0 where
  user_asked_for_help : Stop
  unknown_arguments : List Bytes → Stop
  no_such_directory : Bytes → Stop
  missing_equals : ℕ → Stop
  invalid_level : ℕ → Bytes → Stop
  unknown_key : ℕ → Bytes → Stop
  not_created : Stop
  no_logging_level : Stop
  terminated : Stop
  failed : Error → Stop

pub data Outcome {ℓ} (A : Type ℓ) : Type ℓ where
  stop : Stop → Outcome A
  go : A → Outcome A

infixl 5 ◌>>=◌
abbrev pub ◌>>=◌ {ℓ κ} : {A : Type ℓ} {B : Type κ} → Outcome A → (A → Outcome B) → Outcome B
stop why >>= next = stop why
go a >>= next = next a

-- An exception that nothing here catches.
abbrev pub lift {ℓ} : {A : Type ℓ} → Result A → Outcome A
lift (ok a) = go a
lift (err why) = stop (failed why)

pub Outcome-cases {ℓ} :
    {A : Type ℓ} (r : Outcome A) → ((a : A) × (r ≡ go a)) ⊎ ((w : Stop) × (r ≡ stop w))
Outcome-cases (go a) = inl (a, refl)
Outcome-cases (stop w) = inr (w, refl)
