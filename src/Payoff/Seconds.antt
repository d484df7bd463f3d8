-- ===== src/Payoff/Seconds.antt =====
-- The seconds that `coverDate` of web/lib/payoff.ts gives a stream to pay out an amount.
use native.Mathlib.Nat.{le-div_iff_mul-le, div-lt_iff_lt-mul}
use ovrflo.Prelude.{ℕ, ◌+◌, ◌-◌, ◌*◌, ◌/◌, ◌≤◌, ◌<◌, arith}
use ovrflo.Units.Rounding.{div_bounds}

-- The seconds that a stream needs for an amount.
abbrev pub seconds_for : ℕ → ℕ → ℕ → ℕ
seconds_for need duration deposited = (need * duration + deposited - 1) / deposited

pub seconds_for_bounds :
    (need duration deposited : ℕ)
    → 0 < deposited
    → (need * duration ≤ seconds_for need duration deposited * deposited)
      × (seconds_for need duration deposited * deposited < need * duration + deposited)
seconds_for_bounds need duration deposited h =
    let (lo, hi) = div_bounds (need * duration + deposited - 1) deposited h in
    (omega (arith, lo, hi), omega (arith, lo, hi))

pub seconds_for_le :
    (need duration deposited : ℕ)
    → 0 < deposited
    → need ≤ deposited
    → seconds_for need duration deposited ≤ duration
seconds_for_le need duration deposited h k =
    let (lo, hi) = seconds_for_bounds need duration deposited h in
    let product : need * duration ≤ deposited * duration = grind arith in grind (arith, lo, hi)

pub seconds_for_pos :
    (need duration deposited : ℕ)
    → 0 < need
    → 0 < duration
    → 0 < deposited
    → 0 < seconds_for need duration deposited
seconds_for_pos need duration deposited h k l =
    let product : 1 * 1 ≤ need * duration = grind arith in
    let (lo, hi) = seconds_for_bounds need duration deposited l in grind (arith, lo, product)

-- After those seconds the amount has been paid out, and not before.
pub enough_after :
    (need duration deposited elapsed : ℕ)
    → 0 < deposited
    → 0 < duration
    → seconds_for need duration deposited ≤ elapsed
    → need ≤ deposited * elapsed / duration
enough_after need duration deposited elapsed h k l =
    let (lo, hi) = seconds_for_bounds need duration deposited h in
    let product : seconds_for need duration deposited * deposited ≤ elapsed * deposited =
      grind arith in
    (le-div_iff_mul-le k).1 (omega (arith, lo, product))

pub short_before :
    (need duration deposited elapsed : ℕ)
    → 0 < deposited
    → 0 < duration
    → elapsed < seconds_for need duration deposited
    → deposited * elapsed / duration < need
short_before need duration deposited elapsed h k l =
    let (lo, hi) = seconds_for_bounds need duration deposited h in
    let product : (elapsed + 1) * deposited ≤ seconds_for need duration deposited * deposited =
      grind arith in
    (div-lt_iff_lt-mul k).1 (omega (arith, hi, product))
