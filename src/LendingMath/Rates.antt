-- ===== src/LendingMath/Rates.antt =====
-- The rates of web/lib/lending-math.ts.
use ovrflo.Prelude.{ℕ, ◌+◌, ◌-◌, ◌*◌, ◌/◌, ◌^◌, ◌≤◌, ◌≡◌, arith}
use ovrflo.Prelude.Int.{pos, pos-*ℤ, pos-/ℤ, pos-+ℤ, pos--ℤ}
use ovrflo.Prelude.Errors.{ok}
use ovrflo.LendingMath.{upfront_bps}
use ovrflo.LendingMath.Amounts.{div-pos, mul_div-pos, div_mono_left, div_anti_right}

-- Interest accrued per wad of principal.
abbrev factor : ℕ → ℕ → ℕ
factor apr ttm = 10 ^ 18 + ttm * (apr * 10 ^ 18) / (31_536_000 * 10_000)

abbrev gross : ℕ → ℕ → ℕ
gross apr ttm = 10 ^ 18 * 10_000 / factor apr ttm

abbrev upfront : ℕ → ℕ → ℕ → ℕ
upfront apr ttm fee = gross apr ttm * (10_000 - fee) / 10_000

upfront_value :
    (apr ttm fee : ℕ)
    → fee ≤ 10_000
    → upfront_bps apr (pos ttm) fee ≡ ok (pos (upfront apr ttm fee))
unfolding upfront_bps
upfront_value apr ttm fee h = rw (
  pos-*ℤ apr (10 ^ 18),
  pos-*ℤ 31_536_000 10_000,
  mul_div-pos ttm (apr * 10 ^ 18) (31_536_000 * 10_000) (omega arith),
  pos-+ℤ (10 ^ 18) (ttm * (apr * 10 ^ 18) / (31_536_000 * 10_000)),
  pos-*ℤ (10 ^ 18) 10_000,
  div-pos (10 ^ 18 * 10_000) (factor apr ttm) (omega arith),
  pos--ℤ 10_000 fee h,
  pos-*ℤ (gross apr ttm) (10_000 - fee),
  pos-/ℤ (gross apr ttm * (10_000 - fee)) 10_000,
)

gross_anti : (apr apr' ttm ttm' : ℕ) → apr ≤ apr' → ttm ≤ ttm' → gross apr' ttm' ≤ gross apr ttm
gross_anti apr apr' ttm ttm' h k =
    let more : ttm * (apr * 10 ^ 18) ≤ ttm' * (apr' * 10 ^ 18) = grind arith in
    let accrued = div_mono_left _ _ (31_536_000 * 10_000) (omega arith) more in
    div_anti_right (10 ^ 18 * 10_000) (factor apr ttm) (factor apr' ttm') (omega arith)
      (omega (arith, accrued))

mul_mono : (a b c d : ℕ) → a ≤ b → c ≤ d → a * c ≤ b * d
mul_mono a b c d h k = grind arith

upfront-le : (apr ttm fee : ℕ) → upfront apr ttm fee ≤ 10_000 - fee
upfront-le apr ttm fee =
    let top : gross apr ttm ≤ 10_000 =
      div_anti_right (10 ^ 18 * 10_000) (10 ^ 18) (factor apr ttm) (omega arith) (omega arith) in
    let product = mul_mono (gross apr ttm) 10_000 (10_000 - fee) (10_000 - fee) top (omega arith) in
    omega (arith, div_mono_left _ _ 10_000 (omega arith) product)

-- A borrower's share of the price up front, in basis points, is always returned; it is at most
-- what the fee leaves, and falls, or stays, when the rate, the time to maturity or the fee rises.
pub upfront_bps_antitone :
    (apr ttm fee apr' ttm' fee' : ℕ)
    → apr ≤ apr'
    → ttm ≤ ttm'
    → fee ≤ fee'
    → fee' ≤ 10_000
    → (u u' : ℕ) × (upfront_bps apr (pos ttm) fee ≡ ok (pos u))
      × (upfront_bps apr' (pos ttm') fee' ≡ ok (pos u'))
      × (u' ≤ u)
      × (u ≤ 10_000 - fee)
upfront_bps_antitone apr ttm fee apr' ttm' fee' h k l m =
    let g = gross_anti apr apr' ttm ttm' h k in
    let product : gross apr' ttm' * (10_000 - fee') ≤ gross apr ttm * (10_000 - fee) =
      mul_mono _ _ _ _ g (omega arith) in
    (
      upfront apr ttm fee,
      upfront apr' ttm' fee',
      upfront_value apr ttm fee (omega arith),
      upfront_value apr' ttm' fee' m,
      div_mono_left _ _ 10_000 (omega arith) product,
      upfront-le apr ttm fee,
    )
