-- ===== src/Payoff/Clock.antt =====
-- Interpolation between reads and the correction of the clock in web/lib/payoff.ts.
use ovrflo.Prelude.{ℕ, ◌+◌, ◌-◌, ◌≤◌, ◌<◌, ◌≡◌, ◌⊎◌, Option, none, some, false, ltb, arith}
use ovrflo.Prelude.Int.{ℤ, pos, ◌-ℤ◌, ◌≤ℤ◌, ◌<ℤ◌, -ℤ_parts, pos--ℤ}
use ovrflo.Prelude.Errors.{ok, ◌>>=◌, Returns, Returns-witness, Returns->>=}
use ovrflo.Units.{mint, min, sub}
use ovrflo.LendingMath.{clamp_zero}
use ovrflo.Payoff.{
  StreamSchedule, LastStreamRead, streamed_amount_of, held_streamed, interpolate_streamed,
  outstanding_since, streamed_gain, deduct, less_streamed, interpolate_outstanding, or_zero,
  estimate_skew,
}
use ovrflo.Payoff.Streamed.{paid, schedule, streamed_value, paid_mono, streamed_amount_of_bounds}

abbrev InBounds : StreamSchedule → ℤ → Type 0
InBounds s v = (pos 0 ≤ℤ v) × (v ≤ℤ clamp_zero (s.deposited -ℤ s.refunded))

held_bounds :
    (s : StreamSchedule) (read : LastStreamRead) → Returns (held_streamed s read) (InBounds s)
unfolding held_streamed mint min
held_bounds s read = ground (arith, streamed_amount_of_bounds s s.end)

-- The interpolated amount is always returned and stays within what the stream can pay out, also
-- while an earlier read, of any value, is held because the clock is behind it.
pub interpolate_streamed_bounds :
    (s : StreamSchedule) (now : ℤ) (last_read : Option LastStreamRead)
    → Returns
        (interpolate_streamed s now last_read)
        (λ v. (pos 0 ≤ℤ v) × (v ≤ℤ clamp_zero (s.deposited -ℤ s.refunded)))
unfolding interpolate_streamed
interpolate_streamed_bounds s now none = ground (arith, streamed_amount_of_bounds s now)
interpolate_streamed_bounds s now (some read) =
    ground (arith, streamed_amount_of_bounds s now, held_bounds s read)

gain_bounds : (before after : ℤ) → Returns (streamed_gain before after) (λ a. pos 0 ≤ℤ a)
unfolding streamed_gain mint sub
gain_bounds before after = ground (arith, -ℤ_parts after before)

deduct_bounds :
    (last additional : ℤ)
    → pos 0 <ℤ last
    → pos 0 ≤ℤ additional
    → Returns (deduct last additional) (λ v. (pos 0 ≤ℤ v) × (v ≤ℤ last))
unfolding deduct mint sub
deduct_bounds last additional h k = ground (arith, -ℤ_parts last additional)

less_streamed_bounds :
    (last before after : ℤ)
    → pos 0 <ℤ last
    → Returns (less_streamed last before after) (λ v. (pos 0 ≤ℤ v) × (v ≤ℤ last))
unfolding less_streamed mint
less_streamed_bounds last before after h =
    Returns->>= {Next = ℤ} _ (λ a. mint last >>= λ l. deduct l a) (λ a. pos 0 ≤ℤ a)
      (λ v. (pos 0 ≤ℤ v) × (v ≤ℤ last)) (gain_bounds before after)
      λ a k. ground (arith, deduct_bounds last a)

less_streamed_value :
    (last before after : ℕ)
    → 0 < last
    → before ≤ after
    → less_streamed (pos last) (pos before) (pos after) ≡ ok (pos (last - (after - before)))
unfolding less_streamed streamed_gain deduct mint sub
less_streamed_value last before after h k =
    rw (pos--ℤ after before k) (ground (arith, pos--ℤ last (after - before)))

read_then : ℤ → ℤ → LastStreamRead
read_then at streamed = record { at = at; streamed = streamed }

since_bounds :
    (s : StreamSchedule) (last_outstanding last_read_at now : ℤ)
    → pos 0 <ℤ last_outstanding
    → Returns
        (outstanding_since s last_outstanding last_read_at now)
        (λ v. (pos 0 ≤ℤ v) × (v ≤ℤ last_outstanding))
unfolding outstanding_since read_then
since_bounds s last_outstanding last_read_at now h =
    let (before, e, _) =
      Returns-witness (streamed_amount_of s last_read_at)
        (streamed_amount_of_bounds s last_read_at) in
    let (after, f, _) =
      Returns-witness (interpolate_streamed s now (some (read_then last_read_at before)))
        (interpolate_streamed_bounds s now (some (read_then last_read_at before))) in
    rw (e, f) (less_streamed_bounds last_outstanding before after h)

-- The interpolated balance is always returned; it is not negative and never above the balance
-- that was last read.
pub interpolate_outstanding_bounds :
    (s : StreamSchedule) (last_outstanding last_read_at now : ℤ)
    → Returns
        (interpolate_outstanding s last_outstanding last_read_at now)
        (λ v. (pos 0 ≤ℤ v) × (v ≤ℤ clamp_zero last_outstanding))
unfolding interpolate_outstanding mint
interpolate_outstanding_bounds s last_outstanding last_read_at now =
    ground (arith, since_bounds s last_outstanding last_read_at now)

-- The estimate is the sample if that is at most the limit away from zero. Otherwise the sample is
-- beyond the limit, and the estimate is the previous one, or zero if there is none.
pub estimate_skew_bounded :
    (local_now block_timestamp max_age : ℤ) (previous : Option ℤ)
    → ((estimate_skew local_now block_timestamp previous max_age ≡ local_now -ℤ block_timestamp)
        × (local_now -ℤ block_timestamp ≤ℤ max_age)
        × (block_timestamp -ℤ local_now ≤ℤ max_age))
      ⊎ ((estimate_skew local_now block_timestamp previous max_age ≡ or_zero previous)
          × ((max_age <ℤ local_now -ℤ block_timestamp) ⊎ (max_age <ℤ block_timestamp -ℤ local_now)))
unfolding estimate_skew
estimate_skew_bounded local_now block_timestamp max_age previous = ground (
  arith,
  -ℤ_parts local_now block_timestamp,
  -ℤ_parts block_timestamp local_now,
  -ℤ_parts (pos 0) (local_now -ℤ block_timestamp),
)

not_before : (read now : ℕ) → read ≤ now → ltb (now + 0) (read + 0) ≡ false
not_before read now h = ground arith

module _ (s : StreamSchedule) (last read now before after : ℕ)
    (at_read : streamed_amount_of s (pos read) ≡ ok (pos before))
    (at_now : streamed_amount_of s (pos now) ≡ ok (pos after)) (forward : read ≤ now)
    (grows : before ≤ after) where
  since_value :
      0 < last
      → outstanding_since s (pos last) (pos read) (pos now) ≡ ok (pos (last - (after - before)))
  unfolding outstanding_since interpolate_streamed
  since_value h =
      rw (
        at_read,
        at_now,
        not_before read now forward,
        less_streamed_value last before after h grows,
      )

  -- The streamed amount is a function of the instant.
  same_amount : read ≡ now → before ≡ after
  same_amount e = ground arith

  outstanding_value :
      interpolate_outstanding s (pos last) (pos read) (pos now) ≡ ok (pos (last - (after - before)))
  unfolding interpolate_outstanding mint
  outstanding_value = ground (arith, since_value, same_amount)

-- After a read the balance falls by exactly what the stream has paid out since, down to zero: for
-- a schedule of amounts and instants that are not negative.
pub interpolate_outstanding_falls :
    (start end deposited withdrawn refunded last read now : ℕ)
    → read ≤ now
    → (before after : ℕ) × (streamed_amount_of
          (schedule start end deposited withdrawn refunded)
          (pos read)
        ≡ ok (pos before))
      × (streamed_amount_of (schedule start end deposited withdrawn refunded) (pos now)
          ≡ ok (pos after))
      × (before ≤ after)
      × (interpolate_outstanding
            (schedule start end deposited withdrawn refunded)
            (pos last)
            (pos read)
            (pos now)
          ≡ ok (pos (last - (after - before))))
interpolate_outstanding_falls start end deposited withdrawn refunded last read now h =
    let before = paid start end deposited refunded read in
    let after = paid start end deposited refunded now in
    let grows = paid_mono start end deposited withdrawn refunded read now h in
    let at_read = streamed_value start end deposited withdrawn refunded read in
    let at_now = streamed_value start end deposited withdrawn refunded now in
    (
      before,
      after,
      at_read,
      at_now,
      grows,
      outstanding_value (schedule start end deposited withdrawn refunded) last read now before after
          at_read at_now h grows,
    )
