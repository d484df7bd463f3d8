-- ===== src/Tests/Amounts.antt =====
-- The theorems about web/lib/units.ts and web/lib/lending-math.ts at concrete inputs.
use ovrflo.Prelude.{
  ◌↔◌, ℕ, ◌+◌, ◌-◌, ◌*◌, ◌%◌, ◌≤◌, ◌<◌, ◌≡◌, refl, true, false, some, arith, leb, if◌then◌else◌,
  length, get_elem?, none,
}
use Prim.Native.Nat.{min}
use ovrflo.Prelude.Int.{ℤ, pos, negsuc, ◌+ℤ◌, ◌-ℤ◌, ◌%ℤ◌, ◌≤ℤ◌}
use ovrflo.Prelude.Errors.{ok, err, negative_amount}
use ovrflo.Units.{mul_div_up, sub, add, mint}
use ovrflo.Units.Rounding.{mul_div_up_ceil, sub-add}
use ovrflo.LendingMath.{
  StreamTotals, StreamBuckets, stream_buckets, LoanTerms, loan_outstanding, recovered_for_claimable,
  enumerate_ids, apr_choices, floor_to_unit,
}
use ovrflo.LendingMath.Amounts.{floor_to_unit_greatest}
use ovrflo.LendingMath.Streams.{stream_buckets_conserve}
use ovrflo.LendingMath.Loans.{outstanding_least, recovered-le-obligation}
use ovrflo.LendingMath.Ids.{enumerate_ids_lem, apr_choices_lem}

mul_div_up_ceil_example :
    (r : ℕ) × (mul_div_up (pos 7) (pos 3) (pos 4) ≡ ok (pos r))
    × (7 * 3 ≤ r * 4)
    × (r * 4 < 7 * 3 + 4)
mul_div_up_ceil_example = mul_div_up_ceil 7 3 4 (omega arith)

sub-add_example :
    (sub (pos 14) (pos 9) ≡ ok (pos 5)) ↔ ((add (pos 5) (pos 9) ≡ pos 14) × (pos 0 ≤ℤ pos 5))
sub-add_example = sub-add (pos 14) (pos 9) (pos 5)

abbrev vesting : StreamTotals
vesting = record { deposited = pos 100; withdrawn = pos 10; refunded = pos 0; streamed = pos 40 }

stream_buckets_conserve_example :
    (b : StreamBuckets) × (stream_buckets vesting ≡ ok b)
    × (b.remaining ≡ b.claimable +ℤ b.locked)
    × (b.claimable ≡ pos 40 -ℤ pos 10)
    × (pos 0 ≤ℤ b.claimable)
    × (pos 0 ≤ℤ b.locked)
unfolding ◌-ℤ◌
stream_buckets_conserve_example = stream_buckets_conserve vesting (omega arith) (omega arith)

abbrev half_repaid : LoanTerms
half_repaid = record { obligation = pos 44; drawn = pos 12; repaid = pos 10; closed = false }

outstanding_least_example :
    (pos 0 ≤ℤ loan_outstanding half_repaid)
    × (pos 44 ≤ℤ pos 12 +ℤ pos 10 +ℤ loan_outstanding half_repaid)
    × ((x : ℤ) → pos 0 ≤ℤ x → pos 44 ≤ℤ pos 12 +ℤ pos 10 +ℤ x → loan_outstanding half_repaid ≤ℤ x)
outstanding_least_example = outstanding_least half_repaid

recovered-le-obligation_example :
    (pos 12 +ℤ pos 10 ≤ℤ recovered_for_claimable half_repaid (pos 5))
    × (recovered_for_claimable half_repaid (pos 5) ≤ℤ pos 44)
    × (half_repaid.closed ≡ true → recovered_for_claimable half_repaid (pos 5) ≡ pos 12 +ℤ pos 10)
unfolding ◌+ℤ◌
recovered-le-obligation_example =
    recovered-le-obligation half_repaid (pos 5) (omega arith) (omega arith)

enumerate_ids_lem_example :
    (length (enumerate_ids (pos 5) (pos 500)) ≡ min (5 - 1) 500)
    × ((i : ℕ)
        → i < min (5 - 1) 500
        → get_elem? (enumerate_ids (pos 5) (pos 500)) i ≡ some (pos (i + 1)))
enumerate_ids_lem_example = enumerate_ids_lem 5 500

apr_choices_lem_example :
    get_elem? (apr_choices 100 350 100) 2
    ≡ (if leb (100 + 2 * 100) 350 then some (100 + 2 * 100) else none)
apr_choices_lem_example = apr_choices_lem 100 350 100 2 (omega arith)

floor_to_unit_greatest_example :
    (r : ℕ) × (floor_to_unit (pos 1234) (pos 100) ≡ ok (pos r))
    × (r % 100 ≡ 0)
    × (r ≤ 1234)
    × (1234 < r + 100)
floor_to_unit_greatest_example = floor_to_unit_greatest 1234 100 (omega arith)

-- Runs of the code.
mint_negative : mint (negsuc 0) ≡ err negative_amount
unfolding mint
mint_negative = refl

-- `floorToUnit` of a negative amount goes toward zero.
floor_to_unit_negative : floor_to_unit (negsuc 4) (pos 3) ≡ ok (negsuc 2)
unfolding floor_to_unit ◌-ℤ◌ ◌%ℤ◌
floor_to_unit_negative = refl
