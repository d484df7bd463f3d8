-- ===== src/LendingMath/Loans.antt =====
-- The balance of a loan in web/lib/lending-math.ts.
use ovrflo.Prelude.{true, false, ◌≡◌, ◌⊎◌, ◌↔◌, inl, inr, ap, arith}
use ovrflo.Prelude.Int.{ℤ, pos, pos_part, neg_part, ◌+ℤ◌, ◌-ℤ◌, ◌≤ℤ◌, ◌<ℤ◌, -ℤ_parts, int_laws}
use ovrflo.LendingMath.{
  LoanTerms, loan_outstanding, is_loan_open, pending_recovery, recovered_for_claimable,
}

outstanding_cases :
    (loan : LoanTerms)
    → (loan.obligation ≤ℤ loan.drawn +ℤ loan.repaid) × (loan_outstanding loan ≡ pos 0)
      ⊎ (loan.drawn +ℤ loan.repaid <ℤ loan.obligation)
        × (loan_outstanding loan ≡ loan.obligation -ℤ (loan.drawn +ℤ loan.repaid))
unfolding loan_outstanding
outstanding_cases loan = ground arith

-- The outstanding balance is the least amount, zero or more, that covers the obligation together
-- with what was drawn and repaid.
pub outstanding_least :
    (loan : LoanTerms)
    → (pos 0 ≤ℤ loan_outstanding loan)
      × (loan.obligation ≤ℤ loan.drawn +ℤ loan.repaid +ℤ loan_outstanding loan)
      × ((x : ℤ)
          → pos 0 ≤ℤ x
          → loan.obligation ≤ℤ loan.drawn +ℤ loan.repaid +ℤ x
          → loan_outstanding loan ≤ℤ x)
outstanding_least loan = elim (outstanding_cases loan) [
  | inl (h, e) ↦ rw e (omega arith, omega int_laws, λ x p q. p)
  | inr (h, e) ↦ rw e (omega int_laws, omega int_laws, λ x p q. omega int_laws)
]

-- A loan is open exactly while it is not closed and falls short of its obligation.
pub is_loan_open_iff :
    (loan : LoanTerms)
    → (is_loan_open loan ≡ true)
      ↔ ((loan.closed ≡ false) × (loan.drawn +ℤ loan.repaid <ℤ loan.obligation))
unfolding is_loan_open
is_loan_open_iff loan = elim (outstanding_cases loan) [
  | inl (h, e) ↦ rw e (ground arith)
  | inr (h, e) ↦ rw e (ground (arith, -ℤ_parts loan.obligation (loan.drawn +ℤ loan.repaid)))
]

pending_bounds :
    (loan : LoanTerms) (withdrawable : ℤ)
    → pos 0 ≤ℤ withdrawable
    → (pos 0 ≤ℤ pending_recovery loan withdrawable)
      × (pending_recovery loan withdrawable ≤ℤ loan_outstanding loan)
      × (loan.closed ≡ true → pending_recovery loan withdrawable ≡ pos 0)
unfolding pending_recovery
pending_bounds loan withdrawable h = ground (arith, (outstanding_least loan).0)

-- What a lender recovers lies between what was already satisfied and the obligation, for a
-- loan that was not overpaid; a closed loan counts no part of the stream.
pub recovered-le-obligation :
    (loan : LoanTerms) (withdrawable : ℤ)
    → pos 0 ≤ℤ withdrawable
    → loan.drawn +ℤ loan.repaid ≤ℤ loan.obligation
    → (loan.drawn +ℤ loan.repaid ≤ℤ recovered_for_claimable loan withdrawable)
      × (recovered_for_claimable loan withdrawable ≤ℤ loan.obligation)
      × (loan.closed ≡ true → recovered_for_claimable loan withdrawable ≡ loan.drawn +ℤ loan.repaid)
unfolding recovered_for_claimable
recovered-le-obligation loan withdrawable h k =
    let (lo, hi, none_closed) = pending_bounds loan withdrawable h in
    elim (outstanding_cases loan) [
      | inl (_, e) ↦ (
        omega int_laws,
        omega (int_laws, ap pos_part e, ap neg_part e),
        λ c. rw (none_closed c) (omega int_laws),
      )
      | inr (_, e) ↦ (
        omega int_laws,
        omega (int_laws, ap pos_part e, ap neg_part e),
        λ c. rw (none_closed c) (omega int_laws),
      )
    ]
