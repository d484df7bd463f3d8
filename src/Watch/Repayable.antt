-- ===== src/Watch/Repayable.antt =====
-- The most that the client offers to repay, against what the builder of a repayment accepts:
-- web/lib/modal-logic.ts with web/lib/actions/repay.ts.
use ovrflo.Prelude.{◌≡◌, ◌↔◌, refl, inl, inr, Bool, true, some, arith, Bool-cases}
use ovrflo.Prelude.Int.{ℤ, ◌≤ℤ◌, ltb_ℤ}
use ovrflo.Prelude.Text.{Text}
use ovrflo.LendingMath.{loan_outstanding, is_loan_open}
use ovrflo.Action.{ReadyAction, ActionBuildResult, built, invalid_action, ready_action}
use ovrflo.Action.Amount.{parsed, parse_positive_amount}
use ovrflo.Action.Repay.{
  Loan, RepayState, Snapshot, RepayIntent, fresh_data, repay_action, repay_loan, repay_state,
  repay_amount, build_repay,
}
use ovrflo.Action.Loans.{IsRepay}
use ovrflo.Action.Closing.{loan_at-found}
use ovrflo.Watch.{repay_max}

-- The builder built an action, and it has the property.
abbrev pub BuiltAs : ActionBuildResult → (ReadyAction → Type 0) → Type 0
BuiltAs (built a) P = P a
BuiltAs (invalid_action errors) P = ⊥

module _ (same_address : Text → Text → Bool) where
  -- The snapshot has the loan, which is the account's own and open, read fresh.
  abbrev pub HasOpenLoan : ℤ → Snapshot RepayState → Text → RepayState → Loan → Type 0
  HasOpenLoan loan_id snapshot lending state loan =
      (snapshot.market.lending ≡ some lending)
      × (fresh_data snapshot.state ≡ some state)
      × (state.loan ≡ some loan)
      × (loan.id ≡ loan_id)
      × (same_address loan.borrower snapshot.identity.account ≡ true)
      × (is_loan_open loan.terms ≡ true)

  -- For an open loan of the account, read fresh, and an amount that the text of the intent stands
  -- for, the amount is within the most that the client offers to repay exactly if the builder builds
  -- a repayment; and what it builds calls `repay` of the lending contract with that loan and amount,
  -- after an approval of exactly that amount, and is what is reviewed.
  pub build_repay-repay_max :
      (parse_units : Text → ℤ) (intent : RepayIntent) (snapshot : Snapshot RepayState) (amount : ℤ)
      (lending : Text) (state : RepayState) (loan : Loan)
      → HasOpenLoan intent.loan_id snapshot lending state loan
      → parse_positive_amount parse_units intent.amount ≡ parsed amount
      → (amount ≤ℤ repay_max loan.terms state.wallet_balance)
        ↔ BuiltAs
            (build_repay same_address parse_units intent snapshot)
            (IsRepay same_address snapshot intent.loan_id amount lending state)
  unfolding build_repay repay_amount repay_state repay_loan repay_action ready_action repay_max
  build_repay-repay_max parse_units intent snapshot amount lending state loan
        (l, f, place, id, own, is_open) p =
      let at = loan_at-found intent.loan_id state.loan loan place id in
      let owed = loan_outstanding loan.terms in
      elim (Bool-cases (ltb_ℤ owed amount)) [
        | inl e ↦
            simp (p, l, f, at, own, is_open, e) ((λ h. absurd (ground arith)), (λ h. absurd h))
        | inr e ↦ elim (Bool-cases (ltb_ℤ state.wallet_balance amount)) [
          | inl g ↦
              simp (p, l, f, at, own, is_open, e, g) ((λ h. absurd (ground arith)), (λ h. absurd h))
          | inr g ↦
              simp (p, l, f, at, own, is_open, e, g)
                ((λ h. (refl, refl, refl, refl, refl)), (λ h. ground arith))
        ]
      ]
