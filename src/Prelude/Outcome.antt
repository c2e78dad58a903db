-- ===== src/Prelude/Outcome.antt =====
-- Rust's `Result` with its `?` operator as bind.
use mathlib.Core.Path.{◌≡◌, refl}
use mathlib.Core.Option.{Option, none, some}

pub data Result {ℓ} (A : Type ℓ) (E : Type 0) : Type ℓ where
  err : E → Result A E
  ok : A → Result A E

-- `Option::ok_or`
abbrev pub ok_or {ℓ} : {A : Type ℓ} {E : Type 0} → Option A → E → Result A E
ok_or none failure = err failure
ok_or (some value) failure = ok value

-- `step?` in front of the rest of a function.
infixl 5 ◌>>=◌ ◌>>◌
abbrev pub ◌>>=◌ {ℓ κ} :
    {E : Type 0} {A : Type ℓ} {B : Type κ} → Result A E → (A → Result B E) → Result B E
err failure >>= rest = err failure
ok value >>= rest = rest value

abbrev pub ◌>>◌ {ℓ} : {E : Type 0} {B : Type ℓ} → Result (Unit {0}) E → Result B E → Result B E
err failure >> rest = err failure
ok done >> rest = rest

-- Inversion of a successful bind.
pub >>=-eq-ok {ℓ κ} :
    {E : Type 0} {A : Type ℓ} {B : Type κ} (step : Result A E) (rest : A → Result B E) {result : B}
    → (step >>= rest) ≡ ok result
    → (value : A) × (step ≡ ok value) × (rest value ≡ ok result)
>>=-eq-ok (err failure) rest h = cc
>>=-eq-ok (ok value) rest h = (value, refl, h)
