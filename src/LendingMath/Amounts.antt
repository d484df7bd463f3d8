-- ===== src/LendingMath/Amounts.antt =====
-- Products, quotients and units of web/lib/lending-math.ts on amounts that are not negative.
use native.Mathlib.Nat.{le-div_iff_mul-le, div-mul-le_self, mul-mod_left, mul-div_cancel}
use ovrflo.Prelude.{ℕ, ◌+◌, ◌-◌, ◌*◌, ◌/◌, ◌%◌, ◌≤◌, ◌<◌, ◌≡◌, arith}
use ovrflo.Prelude.Int.{pos, pos-*ℤ, pos-/ℤ, pos-%ℤ, pos--ℤ}
use ovrflo.Prelude.Errors.{ok}
use ovrflo.Units.{div}
use ovrflo.LendingMath.{mul_div, floor_to_unit, units_to_wei, wei_to_units}

pub div-pos : (a b : ℕ) → 0 < b → div (pos a) (pos b) ≡ ok (pos (a / b))
unfolding div
div-pos a b h = rw (pos-/ℤ a b) (ground arith)

pub mul_div-pos :
    (a b den : ℕ) → 0 < den → mul_div (pos a) (pos b) (pos den) ≡ ok (pos (a * b / den))
unfolding mul_div
mul_div-pos a b den h = rw (pos-*ℤ a b, pos-/ℤ (a * b) den) (ground arith)

pub div_mono_left : (a b d : ℕ) → 0 < d → a ≤ b → a / d ≤ b / d
div_mono_left a b d p h = (le-div_iff_mul-le p).1 (omega (arith, div-mul-le_self a d))

pub div_anti_right : (a d e : ℕ) → 0 < d → d ≤ e → a / e ≤ a / d
div_anti_right a d e p h = (le-div_iff_mul-le p).1 (grind (arith, div-mul-le_self a e))

-- `floorToUnit` is the greatest multiple of the unit that an amount holds.
pub floor_to_unit_greatest :
    (amount unit : ℕ)
    → 0 < unit
    → (r : ℕ) × (floor_to_unit (pos amount) (pos unit) ≡ ok (pos r))
      × (r % unit ≡ 0)
      × (r ≤ amount)
      × (amount < r + unit)
unfolding floor_to_unit
floor_to_unit_greatest amount unit h =
    let e : amount - amount % unit ≡ amount / unit * unit = ground arith in
    (
      amount / unit * unit,
      rw (pos-%ℤ amount unit, pos--ℤ amount (amount % unit) (ground arith), e) (ground arith),
      mul-mod_left (amount / unit) unit,
      ground arith,
      ground arith,
    )

-- Whole units survive the way to wei and back.
pub wei_to_units-units_to_wei :
    (units unit : ℕ)
    → 0 < unit
    → wei_to_units (units_to_wei (pos units) (pos unit)) (pos unit) ≡ ok (pos units)
unfolding wei_to_units units_to_wei
wei_to_units-units_to_wei units unit h =
    rw (pos-*ℤ units unit, div-pos (units * unit) unit h, mul-div_cancel units h)
