-- ===== src/Prelude/Errors.antt =====
-- What the code throws, and results.
use mathlib.Core.Path.{◌≡◌, refl}

-- One constructor for each thrown message that the modelled code has.
pub data Error : Type 0 where
  negative_amount tick_range sub_underflow : Error
  denominator_not_positive numerator_negative scale_not_positive unit_not_positive : Error
  division_by_zero : Error
  no_failure_metadata incomplete_set mixed_assets conflicting_claim route_bound undefined_read :
      Error
  invalid_address : Error

-- A call either throws or returns its value.
pub data Result {ℓ} (Value : Type ℓ) : Type ℓ where
  err : Error → Result Value
  ok : Value → Result Value

-- The type without a value, for a call that threw.
pub data Thrown {κ} : Type κ where

module _ {ℓ κ} {Value : Type ℓ} where
  infixl 5 ◌>>=◌
  -- The next statement, which does not run after a throw.
  abbrev pub ◌>>=◌ : {Next : Type κ} → Result Value → (Value → Result Next) → Result Next
  err thrown >>= next = err thrown
  ok value >>= next = next value

  -- The call returns, and its value has the property.
  abbrev pub Returns : Result Value → (Value → Type κ) → Type κ
  Returns (err thrown) Holds = Thrown
  Returns (ok value) Holds = Holds value

  -- If the call returns, its value has the property.
  abbrev pub IfReturns : Result Value → (Value → Type κ) → Type κ
  IfReturns (err thrown) Holds = Unit
  IfReturns (ok value) Holds = Holds value

  pub Returns-witness :
      {Holds : Value → Type κ} (call : Result Value)
      → Returns call Holds
      → (value : Value) × (call ≡ ok value) × Holds value
  Returns-witness (err thrown) r = elim r [ ]
  Returns-witness (ok value) r = (value, refl, r)

-- What two statements in sequence return.
pub Returns->>= {ℓ κ μ} :
    {Value : Type ℓ} {Next : Type κ} (call : Result Value) (next : Value → Result Next)
    (Holds : Value → Type μ) (After : Next → Type μ)
    → Returns call Holds
    → ((value : Value) → Holds value → Returns (next value) After)
    → Returns (call >>= next) After
Returns->>= (err thrown) next Holds After r k = elim r [ ]
Returns->>= (ok value) next Holds After r k = k value r

pub IfReturns->>= {ℓ κ μ} :
    {Value : Type ℓ} {Next : Type κ} (call : Result Value) (next : Value → Result Next)
    (Holds : Value → Type μ) (After : Next → Type μ)
    → IfReturns call Holds
    → ((value : Value) → Holds value → IfReturns (next value) After)
    → IfReturns (call >>= next) After
IfReturns->>= (err thrown) next Holds After r k = tt
IfReturns->>= (ok value) next Holds After r k = k value r
