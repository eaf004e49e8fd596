-- ===== src/Base/Outcome.antt =====
-- The outcome of a service call: a value, or the HTTP exception that the code throws.
use mathlib.Core.Path.{◌≡◌, refl, ap}
use mathlib.Core.Bool.{Bool, true, false}

-- The exception classes of NestJS that the services throw; `missing_row` is the error of a database
-- write that finds no row; `no_fuel` is the model's own, for a loop
-- that is cut off.
pub data Failure : Type 0 where
  bad_request unauthorized forbidden not_found conflict unavailable too_many missing_row no_fuel :
      Failure

pub data Result {ℓ} (Value : Type ℓ) : Type ℓ where
  err : (thrown : Failure) → Result Value
  ok : (value : Value) → Result Value

-- `if (!test) throw e`
abbrev pub require : (test : Bool) (e : Failure) → Result (Unit {0})
require false e = err e
require true e = ok tt

pub require_ok : (b : Bool) (e : Failure) → require b e ≡ ok tt → b ≡ true
require_ok false e h = cc
require_ok true e h = refl

infixl 5 ◌>>=◌ ◌>>◌
-- What follows a call that returned; an exception leaves the rest out.
abbrev pub ◌>>=◌ {κ ℓ} :
    {B : Type κ} {A : Type ℓ} (call : Result A) (next : A → Result B) → Result B
err thrown >>= next = err thrown
ok value >>= next = next value

abbrev pub ◌>>◌ {ℓ} : {B : Type ℓ} (check : Result (Unit {0})) (next : Result B) → Result B
check >> next = check >>= λ _. next

-- What a chain that returned has gone through.
pub bind_ok {κ ℓ} :
    {B : Type κ} {out : B} {A : Type ℓ} (call : Result A) (next : A → Result B)
    → (call >>= next) ≡ ok out
    → (value : A) × (call ≡ ok value) × (next value ≡ ok out)
bind_ok (err thrown) next returned = cc
bind_ok (ok value) next returned = (value, refl, returned)

abbrev value_or {ℓ} : {A : Type ℓ} → A → Result A → A
value_or d (err thrown) = d
value_or d (ok value) = value

pub ok_inj {ℓ} : {A : Type ℓ} {a b : A} → ok a ≡ ok b → a ≡ b
ok_inj {A} {a} {b} h = ap (value_or a) h
