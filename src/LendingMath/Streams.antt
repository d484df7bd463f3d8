-- ===== src/LendingMath/Streams.antt =====
-- The three buckets of a stream in web/lib/lending-math.ts.
use ovrflo.Prelude.{◌≡◌, arith}
use ovrflo.Prelude.Int.{ℤ, pos, ◌+ℤ◌, ◌-ℤ◌, ◌≤ℤ◌, int_laws}
use ovrflo.Prelude.Errors.{ok}
use ovrflo.Units.{mint}
use ovrflo.LendingMath.{StreamTotals, StreamBuckets, clamp_zero, stream_buckets}

clamped_mint : (x : ℤ) → mint (clamp_zero x) ≡ ok (clamp_zero x)
unfolding mint
clamped_mint x = ground arith

abbrev clamped : StreamTotals → StreamBuckets
clamped t = record {
  remaining = clamp_zero (t.deposited -ℤ t.withdrawn -ℤ t.refunded);
  claimable = clamp_zero (t.streamed -ℤ t.withdrawn);
  locked = clamp_zero (t.deposited -ℤ t.streamed -ℤ t.refunded);
}

-- The buckets are always returned: a difference below zero is clamped before the constructor of
-- amounts could reject it.
pub stream_buckets_total : (t : StreamTotals) → stream_buckets t ≡ ok (clamped t)
unfolding stream_buckets
stream_buckets_total t = rw (
  clamped_mint (t.deposited -ℤ t.withdrawn -ℤ t.refunded),
  clamped_mint (t.streamed -ℤ t.withdrawn),
  clamped_mint (t.deposited -ℤ t.streamed -ℤ t.refunded),
)

clamp_nonneg : (x : ℤ) → pos 0 ≤ℤ x → clamp_zero x ≡ x
clamp_nonneg x h = ground arith

-- A stream whose streamed amount lies between what was withdrawn and what can ever be paid out
-- has buckets that add up: what remains is what is claimable and what is locked, neither of which
-- is negative, and what is claimable is exactly what was streamed and not withdrawn.
pub stream_buckets_conserve :
    (t : StreamTotals)
    → t.withdrawn ≤ℤ t.streamed
    → t.streamed ≤ℤ t.deposited -ℤ t.refunded
    → (b : StreamBuckets) × (stream_buckets t ≡ ok b)
      × (b.remaining ≡ b.claimable +ℤ b.locked)
      × (b.claimable ≡ t.streamed -ℤ t.withdrawn)
      × (pos 0 ≤ℤ b.claimable)
      × (pos 0 ≤ℤ b.locked)
stream_buckets_conserve t h k =
    let claimable = t.streamed -ℤ t.withdrawn in
    let locked = t.deposited -ℤ t.streamed -ℤ t.refunded in
    let remaining = t.deposited -ℤ t.withdrawn -ℤ t.refunded in
    let c : pos 0 ≤ℤ claimable = omega int_laws in
    let l : pos 0 ≤ℤ locked = omega int_laws in
    let ec = clamp_nonneg claimable c in
    let el = clamp_nonneg locked l in
    let er = clamp_nonneg remaining (omega int_laws) in
    (clamped t, stream_buckets_total t, rw (er, ec, el) (omega int_laws), ec, rw ec c, rw el l)
