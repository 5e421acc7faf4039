-- ===== src/Base/Results.antt =====
-- C++ exceptions as values.
use mathlib.Core.Path.{◌≡◌, refl}
use mathlib.Core.Bool.{Bool, true, false}
use mathlib.Core.Option.{Option, none, some}
use mathlib.Core.Logic.{◌⊎◌, inl, inr}

-- The exceptions that the program throws, by the statement that throws them.
pub data Exception : Type 0 where
  assertion_failed : Exception
  missing_key : Exception
  bad_cast : Exception
  class_conflict : Exception
  file_not_found : Exception
  not_implemented : Exception
  unexpected_class : Exception
  transform_error : Exception
  null_pointer : Exception
  conversion_failed : Exception
  out_of_range : Exception
  division_by_zero : Exception
  -- `throw;` outside a handler, which ends the process by `std::terminate`
  nothing_to_rethrow : Exception

-- What a function that may throw comes back with.
pub data Result {ℓ} (A : Type ℓ) : Type ℓ where
  ok : A → Result A
  err : Exception → Result A

infixl 5 ◌>>=◌
-- The rest of a block after a call: an exception leaves the block.
abbrev pub ◌>>=◌ {ℓ κ} :
    {Value : Type ℓ} → {Next : Type κ} → Result Value → (Value → Result Next) → Result Next
err thrown >>= rest = err thrown
ok value >>= rest = rest value

infixl 5 ◌>>◌
abbrev pub ◌>>◌ {ℓ} : {Next : Type ℓ} → Result (Unit {0}) → Result Next → Result Next
err thrown >> rest = err thrown
ok done >> rest = rest

-- `ASSERT_(b)`.
abbrev pub assert : Bool → Result (Unit {0})
assert true = ok tt
assert false = err assertion_failed

abbrev pub or_throw {ℓ} : {A : Type ℓ} → Option A → Exception → Result A
or_throw none e = err e
or_throw (some a) e = ok a

abbrev pub map_ok {ℓ κ} : {A : Type ℓ} {B : Type κ} → (A → B) → Result A → Result B
map_ok f (err e) = err e
map_ok f (ok a) = ok (f a)

pub Result-cases {ℓ} :
    {A : Type ℓ} (r : Result A) → ((a : A) × (r ≡ ok a)) ⊎ ((e : Exception) × (r ≡ err e))
Result-cases (ok a) = inl (a, refl)
Result-cases (err e) = inr (e, refl)

-- A property of what a function returns, if it returns.
abbrev pub IfOk {ℓ κ} : {A : Type ℓ} → (A → Type κ) → Result A → Type κ
IfOk P (err e) = Unit
IfOk P (ok a) = P a

pub bind-IfOk {ℓ κ ℓ' κ'} :
    {A : Type ℓ} {B : Type κ} (P : A → Type ℓ') (Q : B → Type κ') (r : Result A)
    (rest : A → Result B)
    → IfOk P r
    → ((a : A) → P a → IfOk Q (rest a))
    → IfOk Q (r >>= rest)
bind-IfOk P Q (err e) rest h next = tt
bind-IfOk P Q (ok a) rest h next = next a h

-- Any result has no property in particular.
pub any-IfOk {ℓ} : {A : Type ℓ} (r : Result A) → IfOk (λ a. Unit {0}) r
any-IfOk (err e) = tt
any-IfOk (ok a) = tt

pub assert-IfOk {ℓ κ} :
    {A : Type ℓ} (Q : A → Type κ) (b : Bool) (rest : Result A)
    → IfOk Q rest
    → IfOk Q (assert b >> rest)
assert-IfOk Q true rest h = h
assert-IfOk Q false rest h = tt
