-- ===== src/Payoff/Streamed.antt =====
-- What a stream has paid out by an instant (`streamedAmountOf` of web/lib/payoff.ts).
use Prim.Native.Nat.{min}
use ovrflo.Prelude.{
  ℕ, ◌-◌, ◌*◌, ◌/◌, ◌≤◌, ◌<◌, ◌≡◌, inl, inr, arith, leb, if◌then◌else◌, Bool-cases,
}
use ovrflo.Prelude.Int.{ℤ, pos, ◌-ℤ◌, ◌≤ℤ◌, -ℤ_parts, pos-*ℤ, pos--ℤ}
use ovrflo.Prelude.Errors.{ok, Returns}
use ovrflo.Units.{div, mint}
use ovrflo.LendingMath.{clamp_zero}
use ovrflo.LendingMath.Amounts.{div_mono_left, div-pos}
use ovrflo.Payoff.{StreamSchedule, streamed_between, streamed_amount_of}

between_bounds :
    (s : StreamSchedule) (cap now : ℤ)
    → pos 0 ≤ℤ cap
    → Returns (streamed_between s cap now) (λ v. (pos 0 ≤ℤ v) × (v ≤ℤ cap))
unfolding streamed_between div mint
between_bounds s cap now h = ground arith

-- For any schedule and any instant, sensible or not, the amount is returned, is not negative, and
-- is at most what was deposited and not refunded.
pub streamed_amount_of_bounds :
    (s : StreamSchedule) (now : ℤ)
    → Returns
        (streamed_amount_of s now)
        (λ v. (pos 0 ≤ℤ v) × (v ≤ℤ clamp_zero (s.deposited -ℤ s.refunded)))
unfolding streamed_amount_of mint
streamed_amount_of_bounds s now = ground (arith, between_bounds s (s.deposited -ℤ s.refunded) now)

progress_mono : (d a b n : ℕ) → 0 < n → a ≤ b → d * a / n ≤ d * b / n
progress_mono d a b n p h = div_mono_left (d * a) (d * b) n p (grind arith)

-- The amount on numbers.
abbrev pub paid : ℕ → ℕ → ℕ → ℕ → ℕ → ℕ
paid start end deposited refunded now =
    if leb deposited refunded
    then 0
    else if leb now start
    then 0
    else if leb end now
    then deposited - refunded
    else min (deposited * (now - start) / (end - start)) (deposited - refunded)

abbrev pub schedule : ℕ → ℕ → ℕ → ℕ → ℕ → StreamSchedule
schedule start end deposited withdrawn refunded = record {
  start = pos start;
  end = pos end;
  deposited = pos deposited;
  withdrawn = pos withdrawn;
  refunded = pos refunded;
}

module _ (start end deposited withdrawn refunded : ℕ) where
  between_value :
      (now : ℕ)
      → refunded < deposited
      → start < now
      → now < end
      → streamed_between
          (schedule start end deposited withdrawn refunded)
          (pos (deposited - refunded))
          (pos now)
        ≡ ok (pos (min (deposited * (now - start) / (end - start)) (deposited - refunded)))
  unfolding streamed_between mint
  between_value now h k l =
      rw
        (
          pos--ℤ end start (omega arith),
          pos--ℤ now start (omega arith),
          pos-*ℤ deposited (now - start),
          div-pos (deposited * (now - start)) (end - start) (omega arith),
        )
        (ground arith)

  pub streamed_value :
      (now : ℕ)
      → streamed_amount_of (schedule start end deposited withdrawn refunded) (pos now)
        ≡ ok (pos (paid start end deposited refunded now))
  unfolding streamed_amount_of mint
  streamed_value now = elim (Bool-cases (leb deposited refunded)) [
    | inl e ↦ ground (arith, -ℤ_parts (pos deposited) (pos refunded))
    | inr e ↦ rw (pos--ℤ deposited refunded (ground arith)) (ground (arith, between_value now))
  ]

  pub paid_mono :
      (now later : ℕ)
      → now ≤ later
      → paid start end deposited refunded now ≤ paid start end deposited refunded later
  paid_mono now later h =
      ground (arith, progress_mono deposited (now - start) (later - start) (end - start))

  -- A stream never takes back what it has paid out: for a schedule of amounts and instants that
  -- are not negative, the amount at an instant is at most the amount at any later one, nothing is
  -- paid out up to the start, and all that was not refunded from the end on.
  pub streamed_amount_of_monotone :
      (now later : ℕ)
      → now ≤ later
      → start < end
      → (v w : ℕ) × (streamed_amount_of (schedule start end deposited withdrawn refunded) (pos now)
          ≡ ok (pos v))
        × (streamed_amount_of (schedule start end deposited withdrawn refunded) (pos later)
            ≡ ok (pos w))
        × (v ≤ w)
        × (w ≤ deposited - refunded)
        × (later ≤ start → w ≡ 0)
        × (end ≤ now → v ≡ deposited - refunded)
  streamed_amount_of_monotone now later h k = (
    paid start end deposited refunded now,
    paid start end deposited refunded later,
    streamed_value now,
    streamed_value later,
    paid_mono now later h,
    ground arith,
    λ e. ground arith,
    λ e. ground arith,
  )
