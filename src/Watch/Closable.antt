-- ===== src/Watch/Closable.antt =====
-- What the client shows of a loan that can be closed, against what its builder accepts:
-- web/lib/modal-logic.ts, positions.ts and watch-rows.ts with web/lib/actions/positions.ts.
use ovrflo.Prelude.{◌≡◌, ◌↔◌, refl, inl, inr, Bool, true, false, some, arith, Bool-cases}
use ovrflo.Prelude.Int.{ℤ, pos, ◌≤ℤ◌, ◌<ℤ◌, ltb_ℤ, leb_ℤ}
use ovrflo.Prelude.Text.{Text}
use ovrflo.LendingMath.{LoanTerms, loan_outstanding, is_loan_open}
use ovrflo.Action.{loan_closed, ready_action}
use ovrflo.Action.Repay.{
  Loan, CloseState, Snapshot, fresh_data, refuse, close_action, close_loan, close_state, close_at,
  build_close,
}
use ovrflo.Action.Closing.{IsBuilt, loan_at-found}
use ovrflo.Watch.{residual, row_settled, loan_card_state, can_close_loan, borrowed_row_state}

open_loan : (t : LoanTerms) → t.closed ≡ false → pos 0 <ℤ loan_outstanding t → is_loan_open t ≡ true
unfolding is_loan_open
open_loan t live owes =
    let some_owed : ltb_ℤ (pos 0) (loan_outstanding t) ≡ true = ground arith in
    simp (live, some_owed) refl

module _ (same_address : Text → Text → Bool) where
  -- The snapshot has the loan, which is the account's own and not closed, read fresh.
  abbrev pub HasOwnLoan : ℤ → Snapshot CloseState → Text → CloseState → Loan → Type 0
  HasOwnLoan loan_id snapshot lending state loan =
      (snapshot.market.lending ≡ some lending)
      × (fresh_data snapshot.state ≡ some state)
      × (state.loan ≡ some loan)
      × (loan.id ≡ loan_id)
      × (same_address loan.borrower snapshot.identity.account ≡ true)
      × (loan.terms.closed ≡ false)

  -- For a loan that the snapshot has, that is the account's own and not closed, that was read
  -- fresh and has something outstanding, the client says that it can be closed exactly if the
  -- builder of the closing builds an action.
  pub build_close-can_close_loan :
      (loan_id : ℤ) (snapshot : Snapshot CloseState) (lending : Text) (state : CloseState)
      (loan : Loan)
      → HasOwnLoan loan_id snapshot lending state loan
      → pos 0 <ℤ loan_outstanding loan.terms
      → (can_close_loan loan.terms state.withdrawable ≡ true)
        ↔ IsBuilt (build_close same_address loan_id snapshot)
  unfolding build_close close_at close_state close_loan close_action ready_action can_close_loan
  build_close-can_close_loan loan_id snapshot lending state loan (l, f, place, id, own, live) owes =
      let at = loan_at-found loan_id state.loan loan place id in
      let is_open : is_loan_open loan.terms ≡ true = open_loan loan.terms live owes in
      elim (Bool-cases (ltb_ℤ state.withdrawable (loan_outstanding loan.terms))) [
        | inl e ↦
            simp (l, f, at, own, is_open, live, e) ((λ h. absurd (ground arith)), (λ h. absurd h))
        | inr e ↦ simp (l, f, at, own, is_open, live, e) ((λ h. tt), (λ h. ground arith))
      ]

  -- For a loan that the snapshot has, that is the account's own and not closed, that was read
  -- fresh and has nothing outstanding, while what can be withdrawn from its stream is not
  -- negative: its card shows a residual and the client says that it can be closed, but its row
  -- shows it as settled and the builder of the closing refuses it as closed.
  pub build_close-residual :
      (loan_id : ℤ) (snapshot : Snapshot CloseState) (lending : Text) (state : CloseState)
      (loan : Loan)
      → HasOwnLoan loan_id snapshot lending state loan
      → loan_outstanding loan.terms ≡ pos 0
      → pos 0 ≤ℤ state.withdrawable
      → (loan_card_state loan.terms ≡ residual)
        × (can_close_loan loan.terms state.withdrawable ≡ true)
        × (borrowed_row_state loan.terms (pos 0) (some state.withdrawable) ≡ row_settled)
        × (build_close same_address loan_id snapshot
            ≡ refuse loan_closed "Loan has no outstanding balance")
  unfolding build_close close_at close_state close_loan can_close_loan loan_card_state
      borrowed_row_state is_loan_open
  build_close-residual loan_id snapshot lending state loan (l, f, place, id, own, live) none_owed
        some_left =
      let at = loan_at-found loan_id state.loan loan place id in
      let enough : leb_ℤ (pos 0) state.withdrawable ≡ true = ground arith in
      (
        simp (live, none_owed) refl,
        simp (live, none_owed, enough) refl,
        simp (live, none_owed) refl,
        simp (l, f, at, own, live, none_owed) refl,
      )
