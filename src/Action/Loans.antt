-- ===== src/Action/Loans.antt =====
-- Repaying and closing a loan, in web/lib/actions/repay.ts and positions.ts: when the action is
-- built, and what it then calls.
use ovrflo.Prelude.{
  ◌≡◌, refl, sym, ap, subst, ◌∙◌, inl, inr, Bool, true, false, not, Option, none, some, [], ◌∷◌,
  arith, if◌then◌else◌, Bool-cases,
}
use ovrflo.Prelude.Int.{ℤ, pos, ◌≤ℤ◌, ◌<ℤ◌, ltb_ℤ, leb_ℤ, eqb_ℤ, eq_of_parts}
use ovrflo.Prelude.Text.{Text}
use ovrflo.LendingMath.{loan_outstanding, is_loan_open}
use ovrflo.Action.{
  ActionError, single, ReadyAction, ActionBuildResult, built, invalid_action, erc20_authorization,
  ready_action,
}
use ovrflo.Action.Value.{no_values, value, big}
use ovrflo.Action.Amount.{
  ParsedAmount, parsed, refused, trim, matches_amount, parse_positive_amount,
}
use ovrflo.Action.Repay.{
  Loan, RepayState, Snapshot, RepayIntent, fresh_data, loan_at, lending_call, repay_action,
  repay_loan, repay_state, repay_amount, build_repay,
}

-- If the action is built, it has the property.
abbrev pub IfBuilt : ActionBuildResult → (ReadyAction → Type 0) → Type 0
IfBuilt (built a) P = P a
IfBuilt (invalid_action errors) P = Unit

pub IfBuilt-map :
    (r : ActionBuildResult) (P Q : ReadyAction → Type 0)
    → IfBuilt r P
    → ((a : ReadyAction) → P a → Q a)
    → IfBuilt r Q
IfBuilt-map (built a) P Q h k = k a h
IfBuilt-map (invalid_action errors) P Q h k = tt

accepted_positive :
    (b : Bool) (v amount : ℤ) (e f : ActionError)
    → (if not b then refused e else if leb_ℤ v (pos 0) then refused f else parsed v) ≡ parsed amount
    → pos 0 <ℤ amount
accepted_positive false v amount e f = λ h. absurd (cc)
accepted_positive true v amount e f = elim (Bool-cases (leb_ℤ v (pos 0))) [
  | inl g ↦ rw g (λ h. absurd (cc))
  | inr g ↦ rw g (λ h. let same : v ≡ amount = cc in subst (λ z. pos 0 <ℤ z) same (ground arith))
]

pub parsed_positive :
    (parse_units : Text → ℤ) (raw : Text) (amount : ℤ)
    → parse_positive_amount parse_units raw ≡ parsed amount
    → pos 0 <ℤ amount
unfolding parse_positive_amount
parsed_positive parse_units raw amount h =
    accepted_positive (matches_amount (trim raw)) (parse_units (trim raw)) amount _ _ h

pub loan_at-eq :
    (id : ℤ) (found : Option Loan) (loan : Loan)
    → loan_at id found ≡ some loan
    → (found ≡ some loan) × (loan.id ≡ id)
loan_at-eq id none loan h = absurd (cc)
loan_at-eq id (some l) loan h = elim (Bool-cases (eqb_ℤ l.id id)) [
  | inl e ↦
      let same : some l ≡ some loan = sym (rw e refl) ∙ h in
      let place : l ≡ loan = cc in
      (same, ap (λ (x : Loan). x.id) (sym place) ∙ ground (arith, eq_of_parts l.id id))
  | inr e ↦ let wrong : none ≡ some loan = sym (rw e refl) ∙ h in absurd (cc)
]

module _ (same_address : Text → Text → Bool) where
  -- The account can repay the amount: the loan is its own, open, and owes as much, and the wallet
  -- holds as much.
  abbrev pub CanRepay : Snapshot RepayState → ℤ → ℤ → RepayState → Loan → Type 0
  CanRepay snapshot loan_id amount state loan =
      (state.loan ≡ some loan)
      × (loan.id ≡ loan_id)
      × (same_address loan.borrower snapshot.identity.account ≡ true)
      × (is_loan_open loan.terms ≡ true)
      × (amount ≤ℤ loan_outstanding loan.terms)
      × (amount ≤ℤ state.wallet_balance)

  -- The action repays the amount, after an approval of exactly that amount.
  abbrev pub IsRepay : Snapshot RepayState → ℤ → ℤ → Text → RepayState → ReadyAction → Type 0
  IsRepay snapshot loan_id amount lending state a =
      (a.identity ≡ snapshot.identity)
      × (a.call
          ≡ single
              (lending_call lending "repay" (value (big loan_id) (value (big amount) no_values))))
      × (a.authorizations
          ≡ erc20_authorization snapshot.market.ovrflo_token lending amount amount state.allowance
            ∷ [])
      × (a.review.call ≡ a.call)
      × (a.review.authorizations ≡ a.authorizations)

  repay_loan_lem :
      (snapshot : Snapshot RepayState) (loan_id amount : ℤ) (lending : Text) (state : RepayState)
      (found : Option Loan)
      → IfBuilt (repay_loan same_address snapshot loan_id amount lending state found) (λ a.
        (loan : Loan) × (found ≡ some loan)
        × (same_address loan.borrower snapshot.identity.account ≡ true)
        × (is_loan_open loan.terms ≡ true)
        × (amount ≤ℤ loan_outstanding loan.terms)
        × (amount ≤ℤ state.wallet_balance)
        × IsRepay snapshot loan_id amount lending state a)
  unfolding repay_loan repay_action ready_action
  repay_loan_lem snapshot loan_id amount lending state none = tt
  repay_loan_lem snapshot loan_id amount lending state (some loan) =
      elim (Bool-cases (same_address loan.borrower snapshot.identity.account)) [
        | inr e ↦ rw e tt
        | inl e ↦ elim (Bool-cases (is_loan_open loan.terms)) [
          | inr f ↦ rw (e, f) tt
          | inl f ↦ elim (Bool-cases (ltb_ℤ (loan_outstanding loan.terms) amount)) [
            | inl g ↦ rw (e, f, g) tt
            | inr g ↦ elim (Bool-cases (ltb_ℤ state.wallet_balance amount)) [
              | inl k ↦ rw (e, f, g, k) tt
              | inr k ↦
                  rw (e, f, g, k)
                    (loan, refl, e, f, ground arith, ground arith, (refl, refl, refl, refl, refl))
            ]
          ]
        ]
      ]

  -- What a built repayment rests on, and what it is.
  abbrev pub RepayBuilt :
      Snapshot RepayState → ℤ → ℤ → Text → Option RepayState → ReadyAction → Type 0
  RepayBuilt snapshot loan_id amount lending found a =
      (state : RepayState) × (found ≡ some state)
      × ((loan : Loan) × CanRepay snapshot loan_id amount state loan)
      × IsRepay snapshot loan_id amount lending state a

  repay_state_lem :
      (snapshot : Snapshot RepayState) (loan_id amount : ℤ) (lending : Text)
      (found : Option RepayState)
      → IfBuilt
          (repay_state same_address snapshot loan_id amount lending found)
          (RepayBuilt snapshot loan_id amount lending found)
  unfolding repay_state
  repay_state_lem snapshot loan_id amount lending none = tt
  repay_state_lem snapshot loan_id amount lending (some state) =
      IfBuilt-map
        (repay_loan same_address snapshot loan_id amount lending state (loan_at loan_id state.loan))
        _ _ (repay_loan_lem snapshot loan_id amount lending state (loan_at loan_id state.loan))
        (λ a (loan, at, own, open_loan, owes, holds, shape).
          let (place, id) = loan_at-eq loan_id state.loan loan at in
          (state, refl, (loan, (place, id, own, open_loan, owes, holds)), shape))

  repay_amount_lem :
      (snapshot : Snapshot RepayState) (loan_id : ℤ) (p : ParsedAmount) (found : Option Text)
      → IfBuilt (repay_amount same_address snapshot loan_id p found) (λ a.
        (amount : ℤ) × (p ≡ parsed amount)
        × ((lending : Text) × (found ≡ some lending)
            × RepayBuilt snapshot loan_id amount lending (fresh_data snapshot.state) a))
  unfolding repay_amount
  repay_amount_lem snapshot loan_id (refused e) found = tt
  repay_amount_lem snapshot loan_id (parsed amount) none = tt
  repay_amount_lem snapshot loan_id (parsed amount) (some lending) =
      IfBuilt-map
        (repay_state same_address snapshot loan_id amount lending (fresh_data snapshot.state)) _ _
        (repay_state_lem snapshot loan_id amount lending (fresh_data snapshot.state))
        (λ a h. (amount, refl, (lending, refl, h)))

  -- A repayment is built only from fresh and complete reads, for a positive amount that the text of
  -- the intent stands for, that the open loan still owes and that the wallet holds, and for the
  -- account that borrowed. It calls `repay` of the lending contract with exactly that loan and
  -- amount, asks for an approval of exactly that amount to that contract, and is what is reviewed.
  pub build_repay_lem :
      (parse_units : Text → ℤ) (intent : RepayIntent) (snapshot : Snapshot RepayState)
      → IfBuilt (build_repay same_address parse_units intent snapshot) (λ a.
        (amount : ℤ) × (parse_positive_amount parse_units intent.amount ≡ parsed amount)
        × (pos 0 <ℤ amount)
        × ((lending : Text) × (snapshot.market.lending ≡ some lending)
            × RepayBuilt snapshot intent.loan_id amount lending (fresh_data snapshot.state) a))
  unfolding build_repay
  build_repay_lem parse_units intent snapshot =
      IfBuilt-map
        (repay_amount same_address snapshot intent.loan_id
          (parse_positive_amount parse_units intent.amount) snapshot.market.lending)
        _ _
        (repay_amount_lem snapshot intent.loan_id (parse_positive_amount parse_units intent.amount)
          snapshot.market.lending)
        (λ a (amount, p, h). (amount, p, parsed_positive parse_units intent.amount amount p, h))
