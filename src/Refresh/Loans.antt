-- ===== src/Refresh/Loans.antt =====
-- Repaying, closing and borrowing touch the contract that they call.
use ovrflo.Prelude.{◌≡◌, refl, inl, inr, Bool, Option, none, some, List, [], ◌∷◌, Bool-cases}
use ovrflo.Prelude.Int.{ℤ, ltb_ℤ}
use ovrflo.Prelude.Text.{Text}
use ovrflo.Prelude.Errors.{Result}
use ovrflo.LendingMath.{loan_outstanding, is_loan_open}
use ovrflo.Router.{HydratedRoute}
use ovrflo.Action.{ActionBuildResult, ActionError, ready_action}
use ovrflo.Action.Amount.{ParsedAmount, parsed, refused, parse_positive_amount}
use ovrflo.Action.Steps.{need_amount_lem, need_lem, refuse_if_lem}
use ovrflo.Action.Loans.{IfBuilt}
use ovrflo.Action.Repay.{
  Loan, RepayState, CloseState, RepayIntent, Snapshot, fresh_data, loan_at, repay_action,
  repay_loan, repay_state, repay_amount, build_repay, close_action, close_loan, close_state,
  close_at, build_close,
}
use ovrflo.Action.Borrow.{
  BorrowIntent, BorrowInputs, refusal, borrow_action, borrow_quoted, borrow_routed, borrow_inputs,
  build_borrow,
}
use ovrflo.Action.Borrow.Reads.{BorrowSnapshot}
use ovrflo.Action.Built.Addresses.{compare_addresses_lem, compare_approved_lem, check_ticks_lem}
use ovrflo.Action.Built.Borrowing.{IfBorrowed, need_route_lem, need_selected_lem}
use ovrflo.Refresh.{resource_contracts, flat_map}
use ovrflo.Refresh.Targets.{Touches, has_first}

abbrev Q : Result ActionBuildResult → Type 0
Q = IfBorrowed Touches

stop : (errors : List ActionError) → Q (refusal errors)
stop errors = tt

module _ (same_address : Text → Text → Bool) where
  repay_loan-Touches :
      (snapshot : Snapshot RepayState) (id amount : ℤ) (lending : Text) (state : RepayState)
      (found : Option Loan)
      → IfBuilt (repay_loan same_address snapshot id amount lending state found) Touches
  unfolding repay_loan repay_action ready_action flat_map resource_contracts
  repay_loan-Touches snapshot id amount lending state none = tt
  repay_loan-Touches snapshot id amount lending state (some loan) =
      elim (Bool-cases (same_address loan.borrower snapshot.identity.account)) [
        | inr e ↦ rw e tt
        | inl e ↦ elim (Bool-cases (is_loan_open loan.terms)) [
          | inr f ↦ rw (e, f) tt
          | inl f ↦ elim (Bool-cases (ltb_ℤ (loan_outstanding loan.terms) amount)) [
            | inl g ↦ rw (e, f, g) tt
            | inr g ↦ elim (Bool-cases (ltb_ℤ state.wallet_balance amount)) [
              | inl h ↦ rw (e, f, g, h) tt
              | inr h ↦ rw (e, f, g, h) (has_first lending _)
            ]
          ]
        ]
      ]

  repay_amount-Touches :
      (snapshot : Snapshot RepayState) (id : ℤ) (p : ParsedAmount) (found : Option Text)
      (state : Option RepayState)
      → fresh_data snapshot.state ≡ state
      → IfBuilt (repay_amount same_address snapshot id p found) Touches
  unfolding repay_amount repay_state
  repay_amount-Touches snapshot id (refused e) found state h = tt
  repay_amount-Touches snapshot id (parsed amount) none state h = tt
  repay_amount-Touches snapshot id (parsed amount) (some lending) none h = rw h tt
  repay_amount-Touches snapshot id (parsed amount) (some lending) (some state) h =
      rw h (repay_loan-Touches snapshot id amount lending state (loan_at id state.loan))

  pub build_repay-Touches :
      (parse_units : Text → ℤ) (intent : RepayIntent) (snapshot : Snapshot RepayState)
      → IfBuilt (build_repay same_address parse_units intent snapshot) Touches
  unfolding build_repay
  build_repay-Touches parse_units intent snapshot =
      repay_amount-Touches snapshot intent.loan_id (parse_positive_amount parse_units intent.amount)
        snapshot.market.lending _ refl

  close_loan-Touches :
      (snapshot : Snapshot CloseState) (id : ℤ) (lending : Text) (state : CloseState)
      (found : Option Loan)
      → IfBuilt (close_loan same_address snapshot id lending state found) Touches
  unfolding close_loan close_action ready_action flat_map resource_contracts
  close_loan-Touches snapshot id lending state none = tt
  close_loan-Touches snapshot id lending state (some loan) =
      elim (Bool-cases (same_address loan.borrower snapshot.identity.account)) [
        | inr e ↦ rw e tt
        | inl e ↦ elim (Bool-cases (is_loan_open loan.terms)) [
          | inr f ↦ rw (e, f) tt
          | inl f ↦ elim (Bool-cases (ltb_ℤ state.withdrawable (loan_outstanding loan.terms))) [
            | inl g ↦ rw (e, f, g) tt
            | inr g ↦ rw (e, f, g) (has_first lending _)
          ]
        ]
      ]

  close_at-Touches :
      (snapshot : Snapshot CloseState) (id : ℤ) (found : Option Text) (state : Option CloseState)
      → fresh_data snapshot.state ≡ state
      → IfBuilt (close_at same_address snapshot id found) Touches
  unfolding close_at close_state
  close_at-Touches snapshot id none state h = tt
  close_at-Touches snapshot id (some lending) none h = rw h tt
  close_at-Touches snapshot id (some lending) (some state) h =
      rw h (close_loan-Touches snapshot id lending state (loan_at id state.loan))

  pub build_close-Touches :
      (id : ℤ) (snapshot : Snapshot CloseState)
      → IfBuilt (build_close same_address id snapshot) Touches
  unfolding build_close
  build_close-Touches id snapshot = close_at-Touches snapshot id snapshot.market.lending _ refl

  borrow_action-Touches :
      (b : BorrowInputs) (selected : HydratedRoute) (ids : List ℤ) (amounts : List ℤ)
      → selected.selected_ids ≡ ids
      → IfBuilt (borrow_action same_address b selected amounts) Touches
  unfolding borrow_action ready_action flat_map resource_contracts
  borrow_action-Touches b selected [] amounts h = rw h (has_first b.lending _)
  borrow_action-Touches b selected (id ∷ ids) amounts h = rw h (has_first b.lending _)

module _ (is_address : Text → Bool) (same_address : Text → Text → Bool) where
  borrow_quoted-Touches :
      (b : BorrowInputs) (selected : HydratedRoute)
      → IfBorrowed Touches (borrow_quoted is_address same_address b selected)
  unfolding borrow_quoted
  borrow_quoted-Touches b selected =
      compare_addresses_lem is_address Q _ _ _ (λ _. tt)
        (λ _. refuse_if_lem refusal Q stop _ _ _ _ (λ _. refuse_if_lem refusal Q stop _ _ _ _ (λ _.
          need_selected_lem Q _ _ (λ _. tt)
            (λ _ _.
              compare_approved_lem is_address Q _ _ _ _ tt
                (borrow_action-Touches same_address b selected selected.selected_ids _ refl)))))

  borrow_routed-Touches :
      (b : BorrowInputs) → IfBorrowed Touches (borrow_routed is_address same_address b)
  unfolding borrow_routed
  borrow_routed-Touches b =
      compare_addresses_lem is_address Q _ _ _ (λ _. tt)
        (λ _. refuse_if_lem refusal Q stop _ _ _ _ (λ _. refuse_if_lem refusal Q stop _ _ _ _ (λ _.
          refuse_if_lem refusal Q stop _ _ _ _ (λ _. need_lem refusal Q stop _ _ _ _ (λ ps _.
            check_ticks_lem is_address same_address Q tt stop b ps _ (λ _.
              need_route_lem Q _ _ (λ e h. tt) stop
                (λ selected _ _. borrow_quoted-Touches b selected)))))))

  pub build_borrow-Touches :
      (parse_units : Text → ℤ) (intent : BorrowIntent) (snapshot : BorrowSnapshot)
      → IfBorrowed Touches (build_borrow is_address same_address parse_units intent snapshot)
  unfolding build_borrow borrow_inputs
  build_borrow-Touches parse_units intent snapshot = need_amount_lem refusal Q stop _ _ (λ _ _.
      need_lem refusal Q stop _ _ _ _ (λ _ _. need_lem refusal Q stop _ _ _ _ (λ _ _.
        refuse_if_lem refusal Q stop _ _ _ _ (λ _. refuse_if_lem refusal Q stop _ _ _ _ (λ _.
          refuse_if_lem refusal Q stop _ _ _ _ (λ _. refuse_if_lem refusal Q stop _ _ _ _ (λ _.
            compare_addresses_lem is_address Q _ _ _ (λ _. tt)
              (λ _. refuse_if_lem refusal Q stop _ _ _ _ (λ _. borrow_routed-Touches _)))))))))
