-- ===== src/Base/Result.antt =====
-- The result of code that may throw: a value, or the exception.
use mathlib.Core.Path.{◌≡◌, refl, ap}
use mathlib.Core.Bool.{Bool, true, false}
use mathlib.Core.Logic.{◌⊎◌, inl, inr}
use native.Mathlib.Omega.{arith}

pub data Result {ℓ κ} (Exn : Type ℓ) (Value : Type κ) : Type (ℓ ⊔ κ) where
  ok : Value → Result Exn Value
  err : Exn → Result Exn Value

module _ {ℓ κ μ} {Exn : Type ℓ} {Value : Type κ} {Next : Type μ} where
  infixl 5 ◌>>=◌
  -- Later statements do not run after a `throw`.
  abbrev pub ◌>>=◌ : Result Exn Value → (Value → Result Exn Next) → Result Exn Next
  ok value >>= next = next value
  err exn >>= next = err exn

  -- A sequence that returned has run its first statement.
  pub >>=-eq-ok :
      (first : Result Exn Value) (next : Value → Result Exn Next) {result : Next}
      → (first >>= next) ≡ ok result
      → (value : Value) × (first ≡ ok value) × (next value ≡ ok result)
  >>=-eq-ok (ok value) next returned = (value, refl, returned)
  >>=-eq-ok (err exn) next returned = cc

  -- A sequence that threw has thrown in its first statement, or has run it and thrown later.
  pub >>=-eq-err :
      (first : Result Exn Value) (next : Value → Result Exn Next) {exn : Exn}
      → (first >>= next) ≡ err exn
      → (first ≡ err exn) ⊎ ((value : Value) × (first ≡ ok value) × (next value ≡ err exn))
  >>=-eq-err (ok value) next threw = inr (value, refl, threw)
  >>=-eq-err (err exn') next threw = inl (ground (arith, threw))

module _ {ℓ κ} {Exn : Type ℓ} {Next : Type κ} where
  infixl 5 ◌>>◌
  abbrev pub ◌>>◌ : Result Exn (Unit {0}) → Result Exn Next → Result Exn Next
  first >> second = first >>= λ done. second

-- `if (test) throw exn;`
abbrev pub throw_if {ℓ} : {Exn : Type ℓ} → Bool → Exn → Result Exn (Unit {0})
throw_if true exn = err exn
throw_if false exn = ok tt

-- What follows a guard that passed.
pub throw_if-eq-ok {ℓ κ} :
    {Exn : Type ℓ} {Next : Type κ} (test : Bool) (exn : Exn) (second : Result Exn Next)
    {result : Next}
    → (throw_if test exn >> second) ≡ ok result
    → (test ≡ false) × (second ≡ ok result)
throw_if-eq-ok true exn second returned = cc
throw_if-eq-ok false exn second returned = (refl, returned)

pub ok_inj {ℓ κ} :
    {Exn : Type ℓ} {Value : Type κ} {a b : Value} → Path (Result Exn Value) (ok a) (ok b) → a ≡ b
ok_inj {a} e = ap (λ r. elim r [ ok v ↦ v | err _ ↦ a ]) e

pub err_inj {ℓ κ} :
    {Exn : Type ℓ} {Value : Type κ} {a b : Exn} → Path (Result Exn Value) (err a) (err b) → a ≡ b
err_inj {a} e = ap (λ r. elim r [ ok _ ↦ a | err v ↦ v ]) e

pub Result-cases {ℓ κ} :
    {Exn : Type ℓ} {Value : Type κ} (r : Result Exn Value)
    → ((value : Value) × (r ≡ ok value)) ⊎ ((exn : Exn) × (r ≡ err exn))
Result-cases (ok value) = inl (value, refl)
Result-cases (err exn) = inr (exn, refl)
