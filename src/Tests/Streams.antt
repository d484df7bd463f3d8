-- ===== src/Tests/Streams.antt =====
-- The theorems about web/lib/payoff.ts at concrete inputs.
use ovrflo.Prelude.{ℕ, ◌-◌, ◌≤◌, ◌≡◌, refl, arith}
use ovrflo.Prelude.Int.{pos, negsuc, ◌+ℤ◌, ◌-ℤ◌, ◌*ℤ◌, ◌/ℤ◌}
use ovrflo.Prelude.Errors.{ok, Returns}
use ovrflo.Units.{div, mint}
use ovrflo.Payoff.{
  streamed_between, cover_needed, cover_at, StreamSchedule, LastStreamRead, projected,
  streamed_amount_of, cover_date, interpolate_outstanding,
}
use ovrflo.Payoff.Streamed.{schedule, streamed_amount_of_monotone}
use ovrflo.Payoff.Cover.{IsFirst, cover_date-IsFirst}
use ovrflo.Payoff.Clock.{interpolate_outstanding_falls}

-- One hundred seconds, of a thousand, two hundred of which are withdrawn.
abbrev linear : StreamSchedule
linear = schedule 100 200 1000 200 0

-- A refund above the deposit.
abbrev odd : StreamSchedule
odd = record {
  start = pos 9;
  end = pos 4;
  deposited = negsuc 6;
  withdrawn = pos 0;
  refunded = pos 3;
}

streamed_amount_of_monotone_example :
    (v w : ℕ) × (streamed_amount_of linear (pos 130) ≡ ok (pos v))
    × (streamed_amount_of linear (pos 250) ≡ ok (pos w))
    × (v ≤ w)
    × (w ≤ 1000 - 0)
    × (250 ≤ 100 → w ≡ 0)
    × (200 ≤ 130 → v ≡ 1000 - 0)
streamed_amount_of_monotone_example =
    streamed_amount_of_monotone 100 200 1000 200 0 130 250 (omega arith) (omega arith)

cover_date-IsFirst_example :
    Returns (cover_date linear (pos 300) (pos 120)) (IsFirst linear (pos 300) (pos 120))
cover_date-IsFirst_example =
    cover_date-IsFirst 100 200 1000 200 0 300 120 (omega arith) (omega arith)

abbrev ahead : LastStreamRead
ahead = record { at = pos 190; streamed = negsuc 8 }

interpolate_outstanding_falls_example :
    (before after : ℕ) × (streamed_amount_of linear (pos 110) ≡ ok (pos before))
    × (streamed_amount_of linear (pos 130) ≡ ok (pos after))
    × (before ≤ after)
    × (interpolate_outstanding linear (pos 300) (pos 110) (pos 130)
        ≡ ok (pos (300 - (after - before))))
interpolate_outstanding_falls_example =
    interpolate_outstanding_falls 100 200 1000 200 0 300 110 130 (omega arith)

-- Half of the deposit is out half way, and 300 beyond the 200 withdrawn are covered then.
half_way : streamed_amount_of linear (pos 150) ≡ ok (pos 500)
unfolding streamed_amount_of streamed_between mint div ◌-ℤ◌ ◌*ℤ◌ ◌/ℤ◌
half_way = refl

cover_at_half : cover_date linear (pos 300) (pos 120) ≡ ok (projected (pos 150))
unfolding cover_date cover_needed cover_at mint div ◌+ℤ◌ ◌-ℤ◌ ◌*ℤ◌ ◌/ℤ◌
cover_at_half = refl
