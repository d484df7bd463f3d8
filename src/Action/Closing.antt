-- ===== src/Action/Closing.antt =====
-- When an action on a loan is built: `closeDefinition` of web/lib/actions/positions.ts.
use ovrflo.Prelude.{◌≡◌, refl, inl, inr, Bool, true, Option, none, some, [], arith, Bool-cases}
use ovrflo.Prelude.Int.{ℤ, ◌≤ℤ◌, ltb_ℤ, eqb_ℤ}
use ovrflo.Prelude.Text.{Text}
use ovrflo.LendingMath.{loan_outstanding, is_loan_open}
use ovrflo.Action.{single, ReadyAction, ActionBuildResult, built, invalid_action, ready_action}
use ovrflo.Action.Value.{no_values, value, big}
use ovrflo.Action.Repay.{
  Loan, CloseState, Snapshot, fresh_data, loan_at, lending_call, close_action, close_loan,
  close_state, close_at, build_close,
}
use ovrflo.Action.Loans.{IfBuilt, IfBuilt-map, loan_at-eq}

abbrev pub IsBuilt : ActionBuildResult → Type 0
IsBuilt (built a) = Unit
IsBuilt (invalid_action errors) = ⊥

pub loan_at-found :
    (id : ℤ) (found : Option Loan) (loan : Loan)
    → found ≡ some loan
    → loan.id ≡ id
    → loan_at id found ≡ some loan
loan_at-found id found loan h e =
    let same : eqb_ℤ loan.id id ≡ true = rw e (ground arith) in rw (h, same) refl

module _ (same_address : Text → Text → Bool) where
  -- The loan can be closed by the account: it is its own, open, and its stream covers the balance.
  abbrev pub CanClose : Snapshot CloseState → ℤ → CloseState → Loan → Type 0
  CanClose snapshot loan_id state loan =
      (state.loan ≡ some loan)
      × (loan.id ≡ loan_id)
      × (same_address loan.borrower snapshot.identity.account ≡ true)
      × (is_loan_open loan.terms ≡ true)
      × (loan_outstanding loan.terms ≤ℤ state.withdrawable)

  close_loan_lem :
      (snapshot : Snapshot CloseState) (loan_id : ℤ) (lending : Text) (state : CloseState)
      (found : Option Loan)
      → loan_at loan_id state.loan ≡ found
      → IfBuilt (close_loan same_address snapshot loan_id lending state found) (λ a.
        ((loan : Loan) × CanClose snapshot loan_id state loan)
        × (a.identity ≡ snapshot.identity)
        × (a.call ≡ single (lending_call lending "close" (value (big loan_id) no_values)))
        × (a.authorizations ≡ [])
        × (a.review.call ≡ a.call))
  unfolding close_loan close_action ready_action
  close_loan_lem snapshot loan_id lending state none at = tt
  close_loan_lem snapshot loan_id lending state (some loan) at =
      let (place, id) = loan_at-eq loan_id state.loan loan at in
      elim (Bool-cases (same_address loan.borrower snapshot.identity.account)) [
        | inr e ↦ rw e tt
        | inl e ↦ elim (Bool-cases (is_loan_open loan.terms)) [
          | inr f ↦ rw (e, f) tt
          | inl f ↦ elim (Bool-cases (ltb_ℤ state.withdrawable (loan_outstanding loan.terms))) [
            | inl g ↦ rw (e, f, g) tt
            | inr g ↦ rw (e, f, g) ((loan, (place, id, e, f, ground arith)), refl, refl, refl, refl)
          ]
        ]
      ]

  -- What a built closing rests on, and what it is.
  abbrev pub CloseBuilt :
      ℤ → Snapshot CloseState → Option Text → Option CloseState → ReadyAction → Type 0
  CloseBuilt loan_id snapshot lending found a =
      (target : Text) × (lending ≡ some target)
      × ((state : CloseState) × (found ≡ some state)
          × ((loan : Loan) × CanClose snapshot loan_id state loan))
      × (a.identity ≡ snapshot.identity)
      × (a.call ≡ single (lending_call target "close" (value (big loan_id) no_values)))
      × (a.authorizations ≡ [])
      × (a.review.call ≡ a.call)

  close_state_lem :
      (snapshot : Snapshot CloseState) (loan_id : ℤ) (lending : Text) (found : Option CloseState)
      → IfBuilt
          (close_state same_address snapshot loan_id lending found)
          (CloseBuilt loan_id snapshot (some lending) found)
  unfolding close_state
  close_state_lem snapshot loan_id lending none = tt
  close_state_lem snapshot loan_id lending (some state) =
      IfBuilt-map
        (close_loan same_address snapshot loan_id lending state (loan_at loan_id state.loan)) _ _
        (close_loan_lem snapshot loan_id lending state (loan_at loan_id state.loan) refl)
        (λ a (can, identity, call, none_needed, review).
          (lending, refl, (state, refl, can), identity, call, none_needed, review))

  close_at_lem :
      (snapshot : Snapshot CloseState) (loan_id : ℤ) (found : Option Text)
      → IfBuilt
          (close_at same_address snapshot loan_id found)
          (CloseBuilt loan_id snapshot found (fresh_data snapshot.state))
  unfolding close_at
  close_at_lem snapshot loan_id none = tt
  close_at_lem snapshot loan_id (some lending) =
      close_state_lem snapshot loan_id lending (fresh_data snapshot.state)

  -- A closing is built only from fresh and complete reads, for an open loan of the account whose
  -- stream covers the outstanding balance. It calls `close` of the lending contract with exactly
  -- that loan, asks for no approval, and is what is reviewed.
  pub build_close_lem :
      (loan_id : ℤ) (snapshot : Snapshot CloseState)
      → IfBuilt
          (build_close same_address loan_id snapshot)
          (CloseBuilt loan_id snapshot snapshot.market.lending (fresh_data snapshot.state))
  unfolding build_close
  build_close_lem loan_id snapshot = close_at_lem snapshot loan_id snapshot.market.lending
