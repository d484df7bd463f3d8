-- ===== src/LendingMath.antt =====
-- web/lib/lending-math.ts: the arithmetic of rates, streams and loans. A `bigint` is an integer
-- of Prelude/Int; a `number` that counts basis points is a natural number.
pub mod Rates
pub mod Streams
pub mod Loans
pub mod Amounts
pub mod Ids
use ovrflo.Units.{div, mint}
use ovrflo.Prelude.{
  ℕ, zero, suc, ◌+◌, ◌-◌, ◌*◌, ◌^◌, Bool, true, false, not, ◌&&◌, List, [], ◌∷◌, ltb, leb,
  if◌then◌else◌,
}
use ovrflo.Prelude.Int.{
  ℤ, pos, pos_part, neg_part, ◌+ℤ◌, ◌-ℤ◌, ◌*ℤ◌, ◌/ℤ◌, ◌%ℤ◌, ltb_ℤ, leb_ℤ, eqb_ℤ,
}
use ovrflo.Prelude.Errors.{Result, ok, err, ◌>>=◌, denominator_not_positive, unit_not_positive}

abbrev pub wad : ℤ
wad = pos (10 ^ 18)

abbrev pub bps_scale : ℤ
bps_scale = pos 10_000

abbrev pub year_seconds : ℤ
year_seconds = pos 31_536_000

abbrev pub apr_step_bps : ℕ
apr_step_bps = 100

abbrev pub max_enumeration_ids : ℤ
max_enumeration_ids = pos 500

abbrev pub unit_wei : ℤ
unit_wei = pos (10 ^ 12)

abbrev pub min_liquidity_amount : ℤ
min_liquidity_amount = pos (10 ^ 15)

unfoldable pub mul_div : ℤ → ℤ → ℤ → Result ℤ
mul_div a b den = if leb_ℤ den (pos 0) then err denominator_not_positive else ok ((a *ℤ b) /ℤ den)

unfoldable pub mul_div_up : ℤ → ℤ → ℤ → Result ℤ
mul_div_up a b den =
    if leb_ℤ den (pos 0)
    then err denominator_not_positive
    else (let prod = a *ℤ b in
        let floor = prod /ℤ den in
        ok (if eqb_ℤ (prod %ℤ den) (pos 0) then floor else floor +ℤ pos 1))

pub upfront_bps : ℕ → ℤ → ℕ → Result ℤ
upfront_bps apr_bps ttm_seconds fee_bps = do
  accrued ← mul_div ttm_seconds (pos apr_bps *ℤ wad) (year_seconds *ℤ bps_scale)
  let factor = wad +ℤ accrued
  gross_bps ← div (wad *ℤ bps_scale) factor
  ok ((gross_bps *ℤ (bps_scale -ℤ pos fee_bps)) /ℤ bps_scale)

pub lender_return_bps : ℕ → ℤ → ℤ
lender_return_bps apr_bps ttm_seconds = (pos apr_bps *ℤ ttm_seconds) /ℤ year_seconds

pub record StreamBuckets : Type 0 where
  pub remaining : ℤ
  pub claimable : ℤ
  pub locked : ℤ

pub record StreamTotals : Type 0 where
  pub deposited : ℤ
  pub withdrawn : ℤ
  pub refunded : ℤ
  pub streamed : ℤ

-- `x < 0n ? 0n : x`
abbrev pub clamp_zero : ℤ → ℤ
clamp_zero x = if ltb_ℤ x (pos 0) then pos 0 else x

unfoldable pub stream_buckets : StreamTotals → Result StreamBuckets
stream_buckets t = do
  let remaining = t.deposited -ℤ t.withdrawn -ℤ t.refunded
  let claimable = t.streamed -ℤ t.withdrawn
  let locked = t.deposited -ℤ t.streamed -ℤ t.refunded
  r ← mint (clamp_zero remaining)
  c ← mint (clamp_zero claimable)
  l ← mint (clamp_zero locked)
  ok (record { remaining = r; claimable = c; locked = l })

-- The fields of a loan that its balance depends on.
pub record LoanTerms : Type 0 where
  pub obligation : ℤ
  pub drawn : ℤ
  pub repaid : ℤ
  pub closed : Bool

unfoldable pub loan_outstanding : LoanTerms → ℤ
loan_outstanding loan =
    let satisfied = loan.drawn +ℤ loan.repaid in
    if leb_ℤ loan.obligation satisfied then pos 0 else loan.obligation -ℤ satisfied

unfoldable pub is_loan_open : LoanTerms → Bool
is_loan_open loan = not loan.closed && ltb_ℤ (pos 0) (loan_outstanding loan)

-- `pendingStreamRecovery` of `recoveredForClaimable`.
pending_recovery : LoanTerms → ℤ → ℤ
pending_recovery loan withdrawable =
    let outstanding = loan_outstanding loan in
    if loan.closed
    then pos 0
    else if ltb_ℤ withdrawable outstanding
    then withdrawable
    else outstanding

pub recovered_for_claimable : LoanTerms → ℤ → ℤ
recovered_for_claimable loan withdrawable =
    loan.drawn +ℤ loan.repaid +ℤ pending_recovery loan withdrawable

-- `Array.from({ length: n }, (_, index) => BigInt(index + 1))`, from an index on.
count_up : ℕ → ℕ → List ℤ
count_up index zero = []
count_up index (suc n) = pos (index + 1) ∷ count_up (index + 1) n

pub enumerate_ids : ℤ → ℤ → List ℤ
unfolding count_up
enumerate_ids next_id max_ids =
    let max = next_id -ℤ pos 1 in
    let capped = if ltb_ℤ max_ids max then max_ids else max in
    if leb_ℤ capped (pos 0) then [] else count_up 0 (pos_part capped)

-- The `for` loop of `aprChoices` with fuel; `Rates` proves how much is enough for a positive step.
apr_loop : ℕ → ℕ → ℕ → ℕ → List ℕ
apr_loop zero apr_bps max_bps step_bps = []
apr_loop (suc fuel) apr_bps max_bps step_bps =
    let rest = apr_loop fuel (apr_bps + step_bps) max_bps step_bps in
    if leb apr_bps max_bps then apr_bps ∷ rest else []

unfoldable pub apr_choices : ℕ → ℕ → ℕ → List ℕ
unfolding apr_loop
apr_choices min_bps max_bps step_bps = apr_loop (suc (max_bps - min_bps)) min_bps max_bps step_bps

unfoldable pub floor_to_unit : ℤ → ℤ → Result ℤ
floor_to_unit amount unit =
    if leb_ℤ unit (pos 0) then err unit_not_positive else ok (amount -ℤ (amount %ℤ unit))

unfoldable pub units_to_wei : ℤ → ℤ → ℤ
units_to_wei available_units unit = available_units *ℤ unit

unfoldable pub wei_to_units : ℤ → ℤ → Result ℤ
wei_to_units amount unit = div amount unit

pub ratio_bps : ℤ → ℤ → Result ℤ
ratio_bps numerator denominator =
    if leb_ℤ denominator (pos 0) then ok (pos 0) else mul_div numerator bps_scale denominator
