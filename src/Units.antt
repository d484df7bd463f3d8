-- ===== src/Units.antt =====
-- web/lib/units.ts: branded amounts. The brands are types that vanish at run time, so every
-- constructor of an amount is `mint`; an amount is an integer of Prelude/Int.
pub mod Rounding
use ovrflo.Prelude.{ℕ, ◌-◌, ◌^◌, ltb, if◌then◌else◌}
use ovrflo.Prelude.Int.{
  ℤ, pos, pos_part, neg_part, ◌+ℤ◌, ◌-ℤ◌, ◌*ℤ◌, ◌/ℤ◌, ◌%ℤ◌, ltb_ℤ, leb_ℤ, eqb_ℤ,
}
use ovrflo.Prelude.Errors.{
  Result, ok, err, negative_amount, tick_range, sub_underflow, denominator_not_positive,
  numerator_negative, scale_not_positive, division_by_zero,
}

abbrev pub max_uint128 : ℤ
max_uint128 = pos (2 ^ 128 - 1)

-- `/` on `bigint`, which throws on a zero divisor.
unfoldable pub div : ℤ → ℤ → Result ℤ
div a b = if eqb_ℤ b (pos 0) then err division_by_zero else ok (a /ℤ b)

unfoldable pub mint : ℤ → Result ℤ
mint v = if ltb_ℤ v (pos 0) then err negative_amount else ok v

unfoldable pub tick_bps : ℕ → Result ℕ
tick_bps value = if ltb 65_535 value then err tick_range else ok value

unfoldable pub add : ℤ → ℤ → ℤ
add a b = a +ℤ b

unfoldable pub sub : ℤ → ℤ → Result ℤ
sub a b = if ltb_ℤ a b then err sub_underflow else ok (a -ℤ b)

unfoldable pub min : ℤ → ℤ → ℤ
min a b = if ltb_ℤ a b then a else b

unfoldable pub max : ℤ → ℤ → ℤ
max a b = if ltb_ℤ b a then a else b

unfoldable pub mul_div : ℤ → ℤ → ℤ → Result ℤ
mul_div a num den =
    if leb_ℤ den (pos 0)
    then err denominator_not_positive
    else if ltb_ℤ num (pos 0)
    then err numerator_negative
    else ok ((a *ℤ num) /ℤ den)

unfoldable pub mul_div_up : ℤ → ℤ → ℤ → Result ℤ
mul_div_up a num den =
    if leb_ℤ den (pos 0)
    then err denominator_not_positive
    else if ltb_ℤ num (pos 0)
    then err numerator_negative
    else (let prod = a *ℤ num in
        let floor = prod /ℤ den in
        ok (if eqb_ℤ (prod %ℤ den) (pos 0) then floor else floor +ℤ pos 1))

unfoldable pub to_display_magnitude : ℤ → ℤ → Result ℤ
to_display_magnitude amount scale =
    if leb_ℤ scale (pos 0) then err scale_not_positive else ok (amount /ℤ scale)
