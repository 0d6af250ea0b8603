-- ===== src/Base/Results.antt =====
-- A value or a thrown error, with `do` blocks for the calls in a row.
use mathlib.Core.Path.{◌≡◌, refl}
use mathlib.Core.Logic.{◌≢◌, ◌⊎◌, inl, inr}
use mathlib.Core.Bool.{Bool, true, false}
use mathlib.Core.Option.{Option, none, some}

pub data Result {ℓ κ} (E : Type ℓ) (A : Type κ) : Type (ℓ ⊔ κ) where
  ok : A → Result E A
  err : E → Result E A

infixl 5 ◌>>=◌ ◌>>◌
abbrev pub ◌>>=◌ {ℓ κ μ} :
    {E : Type ℓ} {A : Type κ} {B : Type μ} → Result E A → (A → Result E B) → Result E B
ok a >>= f = f a
err e >>= f = err e

abbrev pub ◌>>◌ {ℓ κ} : {E : Type ℓ} {B : Type κ} → Result E (Unit {0}) → Result E B → Result E B
m >> k = m >>= λ _. k

-- `if (!test) throw e`
abbrev pub guard {ℓ} : {E : Type ℓ} → Bool → E → Result E (Unit {0})
guard true e = ok tt
guard false e = err e

-- A call that may throw, with the error that its caller reports.
abbrev pub or_throw {ℓ κ} : {E : Type ℓ} {A : Type κ} → Option A → E → Result E A
or_throw none e = err e
or_throw (some a) e = ok a

-- To split on a call and keep the equation.
pub Result-cases {ℓ κ} :
    {E : Type ℓ} {A : Type κ} (r : Result E A) → ((a : A) × (r ≡ ok a)) ⊎ ((e : E) × (r ≡ err e))
Result-cases (ok a) = inl (a, refl)
Result-cases (err e) = inr (e, refl)

-- What a run that ends with a value says of its first step.
module _ {ℓ κ μ} {E : Type ℓ} {A : Type κ} {B : Type μ} where
  pub bind_ok :
      (m : Result E A) (k : A → Result E B) {b : B}
      → (m >>= k) ≡ ok b
      → (a : A) × (m ≡ ok a) × (k a ≡ ok b)
  bind_ok (ok a) k h = (a, refl, h)
  bind_ok (err e) k h = cc

pub err_not_ok {ℓ κ} :
    {E : Type ℓ} {A : Type κ} {e : E} {a : A} → ◌≢◌ {A = Result E A} (err e) (ok a)
err_not_ok h = cc

pub ok_injective {ℓ κ} :
    {E : Type ℓ} {A : Type κ} {a b : A} → ◌≡◌ {A = Result E A} (ok a) (ok b) → a ≡ b
ok_injective h = cc

pub guard_ok {ℓ κ} :
    {E : Type ℓ} {A : Type κ} (test : Bool) (e : E) (k : Result E A) {a : A}
    → (guard test e >> k) ≡ ok a
    → (test ≡ true) × (k ≡ ok a)
guard_ok true e k h = (refl, h)
guard_ok false e k h = cc

pub guard-ok {ℓ} : {E : Type ℓ} (test : Bool) (e : E) → guard test e ≡ ok tt → test ≡ true
guard-ok true e h = refl
guard-ok false e h = cc
