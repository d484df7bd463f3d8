-- ===== src/Payoff/Cover.antt =====
-- `coverDate` of web/lib/payoff.ts finds the first instant at which a stream covers a loan.
use ovrflo.Prelude.{
  ℕ, ◌+◌, ◌-◌, ◌*◌, ◌≤◌, ◌<◌, ◌≡◌, ◌↔◌, refl, inl, inr, arith, leb, if◌then◌else◌, Bool-cases,
}
use ovrflo.Prelude.Int.{ℤ, pos, ◌+ℤ◌, ◌-ℤ◌, ◌≤ℤ◌, ◌<ℤ◌, -ℤ_parts, pos-*ℤ, pos-+ℤ, pos--ℤ}
use ovrflo.Prelude.Errors.{ok, Returns}
use ovrflo.Units.{mint, sub}
use ovrflo.LendingMath.Amounts.{div-pos}
use ovrflo.Payoff.{
  StreamSchedule, CoverDate, covered, projected, uncovered, streamed_amount_of, cover_date,
  cover_needed, cover_at, cover_reached,
}
use ovrflo.Payoff.Seconds.{seconds_for, seconds_for_le, seconds_for_pos, enough_after, short_before}
use ovrflo.Payoff.Streamed.{paid, schedule, streamed_value}

-- At the instant the stream has paid out the balance beyond what was withdrawn.
abbrev pub CoveredBy : StreamSchedule → ℤ → ℤ → Type 0
CoveredBy s outstanding t = Returns (streamed_amount_of s t) (λ v. s.withdrawn +ℤ outstanding ≤ℤ v)

-- The answer that a search through all instants would give.
abbrev pub IsFirst : StreamSchedule → ℤ → ℤ → CoverDate → Type 0
IsFirst s outstanding now (covered at) = (at ≡ now) × CoveredBy s outstanding now
IsFirst s outstanding now (projected at) =
    (now <ℤ at)
    × CoveredBy s outstanding at
    × ((t : ℕ) → pos t <ℤ at → ¬ CoveredBy s outstanding (pos t))
IsFirst s outstanding now uncovered = (t : ℕ) → ¬ CoveredBy s outstanding (pos t)

module _ (start end deposited withdrawn refunded : ℕ) where
  abbrev the_schedule : StreamSchedule
  the_schedule = schedule start end deposited withdrawn refunded

  covered_iff :
      (outstanding t : ℕ)
      → CoveredBy the_schedule (pos outstanding) (pos t)
        ↔ (withdrawn + outstanding ≤ paid start end deposited refunded t)
  covered_iff outstanding t =
      rw (streamed_value start end deposited withdrawn refunded t, pos-+ℤ withdrawn outstanding)
        (λ h. omega arith, λ h. omega arith)

  -- The instant that `coverDate` works out.
  abbrev cover_instant : ℕ → ℕ
  cover_instant outstanding = start + seconds_for (outstanding + withdrawn) (end - start) deposited

  module _ (outstanding : ℕ) (owed : 0 < outstanding) (runs : start < end)
      (fits : outstanding + withdrawn + refunded ≤ deposited) where
    paid_at :
        (t : ℕ)
        → cover_instant outstanding ≤ t
        → withdrawn + outstanding ≤ paid start end deposited refunded t
    paid_at t h =
        let enough =
          enough_after (outstanding + withdrawn) (end - start) deposited (t - start) (omega arith)
            (omega arith) (omega arith) in
        let some_seconds : 0 < seconds_for (outstanding + withdrawn) (end - start) deposited =
          seconds_for_pos _ _ _ (omega arith) (omega arith) (omega arith) in
        ground arith

    short_at :
        (t : ℕ)
        → t < cover_instant outstanding
        → paid start end deposited refunded t < withdrawn + outstanding
    short_at t h =
        let short =
          short_before (outstanding + withdrawn) (end - start) deposited (t - start) (omega arith)
            (omega arith) in
        let within =
          seconds_for_le (outstanding + withdrawn) (end - start) deposited (omega arith)
            (omega arith) in
        ground (arith, short)

    reached_value :
        (now at : ℕ)
        → withdrawn + outstanding ≤ paid start end deposited refunded now
        → cover_reached the_schedule (pos outstanding) (pos now) (pos at) ≡ ok (covered (pos now))
    unfolding cover_reached mint sub
    reached_value now at h =
        rw (streamed_value start end deposited withdrawn refunded now)
          (ground (arith, pos--ℤ (paid start end deposited refunded now) withdrawn))

    at_value :
        (now : ℕ)
        → cover_at the_schedule
            (pos outstanding)
            (pos now)
            (pos deposited -ℤ pos withdrawn -ℤ pos refunded)
            (pos (cover_instant outstanding))
          ≡ ok (
              if leb (cover_instant outstanding) now
              then covered (pos now)
              else projected (pos (cover_instant outstanding)))
    unfolding cover_at
    at_value now =
        let within =
          seconds_for_le (outstanding + withdrawn) (end - start) deposited (omega arith)
            (omega arith) in
        ground (
          arith,
          within,
          -ℤ_parts (pos deposited) (pos withdrawn),
          -ℤ_parts (pos deposited -ℤ pos withdrawn) (pos refunded),
          paid_at now,
          reached_value now (cover_instant outstanding),
        )

    needed_value :
        (now : ℕ)
        → cover_needed the_schedule
            (pos outstanding)
            (pos now)
            (pos deposited -ℤ pos withdrawn -ℤ pos refunded)
          ≡ ok (
              if leb (cover_instant outstanding) now
              then covered (pos now)
              else projected (pos (cover_instant outstanding)))
    unfolding cover_needed
    needed_value now =
        rw
          (
            pos-+ℤ outstanding withdrawn,
            pos--ℤ end start (omega arith),
            pos-*ℤ (outstanding + withdrawn) (end - start),
            pos-+ℤ ((outstanding + withdrawn) * (end - start)) deposited,
            pos--ℤ ((outstanding + withdrawn) * (end - start) + deposited) 1 (omega arith),
            div-pos ((outstanding + withdrawn) * (end - start) + deposited - 1) deposited
                (omega arith),
            pos-+ℤ start (seconds_for (outstanding + withdrawn) (end - start) deposited),
          )
          (ground (arith, at_value now))

    cover_value :
        (now : ℕ)
        → cover_date the_schedule (pos outstanding) (pos now)
          ≡ ok (
              if leb (cover_instant outstanding) now
              then covered (pos now)
              else projected (pos (cover_instant outstanding)))
    unfolding cover_date
    cover_value now = ground (
      arith,
      -ℤ_parts (pos deposited) (pos withdrawn),
      -ℤ_parts (pos deposited -ℤ pos withdrawn) (pos refunded),
      needed_value now,
    )

  uncovered_value :
      (outstanding now : ℕ)
      → 0 < outstanding
      → deposited < outstanding + withdrawn + refunded
      → cover_date the_schedule (pos outstanding) (pos now) ≡ ok uncovered
  unfolding cover_date
  uncovered_value outstanding now h k = ground (
    arith,
    -ℤ_parts (pos deposited) (pos withdrawn),
    -ℤ_parts (pos deposited -ℤ pos withdrawn) (pos refunded),
  )

  -- For a schedule of amounts and instants that are not negative, with its start before its end,
  -- and a positive balance, `coverDate` returns the answer of a search through all instants:
  -- `covered` at the present one if the stream has covered the balance by now; otherwise the first
  -- later instant at which it covers it, before which it never does; or `uncovered` if there is none.
  pub cover_date-IsFirst :
      (outstanding now : ℕ)
      → 0 < outstanding
      → start < end
      → Returns
          (cover_date the_schedule (pos outstanding) (pos now))
          (IsFirst the_schedule (pos outstanding) (pos now))
  cover_date-IsFirst outstanding now h k =
      elim (Bool-cases (leb (outstanding + withdrawn + refunded) deposited)) [
        | inl fits ↦
            let f : outstanding + withdrawn + refunded ≤ deposited = ground arith in
            rw (cover_value outstanding h k f now)
              (elim (Bool-cases (leb (cover_instant outstanding) now)) [
                | inl past ↦ rw past (
                  refl,
                  (covered_iff outstanding now).1 (paid_at outstanding h k f now (ground arith)),
                )
                | inr future ↦ rw future (
                  ground arith,
                  (covered_iff outstanding (cover_instant outstanding)).1
                      (paid_at outstanding h k f (cover_instant outstanding) (omega arith)),
                  λ t before c. absurd (
                      omega (
                        arith,
                        short_at outstanding h k f t (omega arith),
                        (covered_iff outstanding t).0 c,
                      )),
                )
              ])
        | inr short ↦
            rw (uncovered_value outstanding now h (ground arith))
              (λ t c. absurd (ground (arith, (covered_iff outstanding t).0 c)))
      ]
