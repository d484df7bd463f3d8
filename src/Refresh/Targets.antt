-- ===== src/Refresh/Targets.antt =====
-- Every action that a `build` function under web/lib/actions builds touches the contract that it
-- calls.
use Prim.Native.String.{String}
use ovrflo.Prelude.{◌≡◌, refl, Bool, true, ◌||◌, List, [], ◌∷◌, any}
use ovrflo.Prelude.Int.{ℤ}
use ovrflo.Prelude.Text.{Text, text_eq, text_eq_refl}
use ovrflo.Action.{FinalCall, single, batch, ReadyAction, ready_action}
use ovrflo.Action.Value.{Values}
use ovrflo.Action.Loans.{IfBuilt}
use ovrflo.Action.Repay.{Snapshot}
use ovrflo.Action.Supply.{
  SupplyIntent, SupplyState, WithdrawState, ClaimShareState, build_supply, supply_action,
  build_withdraw, withdraw_action, build_claim_share, claim_share_action,
}
use ovrflo.Action.Rate.{
  AdjustRateIntent, AdjustRateState, adjust_rate_call, adjust_rate_action, build_adjust_rate,
}
use ovrflo.Action.Convert.{
  DepositState, WrapState, UnwrapState, build_deposit, deposit_action, build_wrap, wrap_action,
  build_unwrap, unwrap_action,
}
use ovrflo.Action.Claim.{
  MaturedClaimState, StreamClaimState, ClaimPositionState, ClaimPair, build_matured_claim,
  matured_claim_action, build_stream_claim, stream_claim_action, claim_pairs_call,
  claim_position_action, build_claim_position,
}
use ovrflo.Action.Built.{after_amount, after, unless}
use ovrflo.Refresh.{resource_contracts, flat_map}

abbrev pub target_of : FinalCall → Text
target_of (single c) = c.target
target_of (batch c calls) = c.target

-- The contract that the action calls is one of the contracts of what it touches.
abbrev pub Touches : ReadyAction → Type 0
Touches a =
    any (text_eq (target_of a.call)) (flat_map resource_contracts a.touched_resources) ≡ true

pub has_first : (t : Text) (others : Bool) → (text_eq t t || others) ≡ true
has_first t others = rw (text_eq_refl t) refl

pub build_supply-Touches :
    (parse_units : Text → ℤ) (intent : SupplyIntent) (snapshot : Snapshot SupplyState)
    → IfBuilt (build_supply parse_units intent snapshot) Touches
unfolding build_supply supply_action ready_action flat_map resource_contracts
build_supply-Touches parse_units intent snapshot = after_amount Touches _ _ (λ _ _.
    after Touches _ _ _ _ (λ lending _. after Touches _ _ _ _ (λ _ _.
      unless Touches _ _ _ _
        (λ _. unless Touches _ _ _ _ (λ _. unless Touches _ _ _ _ (λ _. has_first lending _))))))

pub build_claim_share-Touches :
    (loan_id : ℤ) (snapshot : Snapshot ClaimShareState)
    → IfBuilt (build_claim_share loan_id snapshot) Touches
unfolding build_claim_share claim_share_action ready_action flat_map resource_contracts
build_claim_share-Touches loan_id snapshot =
    after Touches _ _ _ _ (λ lending _.
      after Touches _ _ _ _ (λ _ _. unless Touches _ _ _ _ (λ _. has_first lending _)))

pub build_deposit-Touches :
    (parse_units : Text → ℤ) (raw : Text) (snapshot : Snapshot DepositState)
    → IfBuilt (build_deposit parse_units raw snapshot) Touches
unfolding build_deposit deposit_action ready_action flat_map resource_contracts
build_deposit-Touches parse_units raw snapshot = after_amount Touches _ _ (λ _ _.
    after Touches _ _ _ _ (λ _ _. unless Touches _ _ _ _ (λ _. unless Touches _ _ _ _ (λ _.
      unless Touches _ _ _ _
        (λ _. unless Touches _ _ _ _ (λ _. has_first snapshot.market.vault _))))))

pub build_wrap-Touches :
    (parse_units : Text → ℤ) (raw : Text) (snapshot : Snapshot WrapState)
    → IfBuilt (build_wrap parse_units raw snapshot) Touches
unfolding build_wrap wrap_action ready_action flat_map resource_contracts
build_wrap-Touches parse_units raw snapshot = after_amount Touches _ _ (λ _ _.
    after Touches _ _ _ _ (λ _ _. unless Touches _ _ _ _ (λ _. has_first snapshot.market.vault _)))

pub build_unwrap-Touches :
    (parse_units : Text → ℤ) (raw : Text) (snapshot : Snapshot UnwrapState)
    → IfBuilt (build_unwrap parse_units raw snapshot) Touches
unfolding build_unwrap unwrap_action ready_action flat_map resource_contracts
build_unwrap-Touches parse_units raw snapshot = after_amount Touches _ _ (λ _ _.
    after Touches _ _ _ _ (λ _ _. unless Touches _ _ _ _ (λ _. has_first snapshot.market.vault _)))

pub build_matured_claim-Touches :
    (parse_units : Text → ℤ) (raw : Text) (snapshot : Snapshot MaturedClaimState)
    → IfBuilt (build_matured_claim parse_units raw snapshot) Touches
unfolding build_matured_claim matured_claim_action ready_action flat_map resource_contracts
build_matured_claim-Touches parse_units raw snapshot = after_amount Touches _ _ (λ _ _.
    after Touches _ _ _ _ (λ _ _.
      unless Touches _ _ _ _
        (λ _. unless Touches _ _ _ _ (λ _. has_first snapshot.market.vault _))))

target_of-claim_pairs_call :
    (encode : String → Values → Text) (lending : Text) (id : ℤ) (pairs : List ClaimPair)
    → target_of (claim_pairs_call encode lending id pairs) ≡ lending
unfolding claim_pairs_call
target_of-claim_pairs_call encode lending id [] = refl
target_of-claim_pairs_call encode lending id (p ∷ []) = refl
target_of-claim_pairs_call encode lending id (p ∷ q ∷ pairs) = refl

claim_position_action-Touches :
    (encode : String → Values → Text) (id : ℤ) (snapshot : Snapshot ClaimPositionState)
    (lending : Text) (truncated : Bool) (pairs : List ClaimPair)
    → IfBuilt (claim_position_action encode id snapshot lending truncated pairs) Touches
unfolding claim_position_action ready_action flat_map resource_contracts
claim_position_action-Touches encode id snapshot lending truncated pairs =
    rw (target_of-claim_pairs_call encode lending id pairs) (has_first lending _)

pub build_claim_position-Touches :
    (encode : String → Values → Text) (id : ℤ) (snapshot : Snapshot ClaimPositionState)
    → IfBuilt (build_claim_position encode id snapshot) Touches
unfolding build_claim_position
build_claim_position-Touches encode id snapshot = after Touches _ _ _ _ (λ lending _.
    after Touches _ _ _ _ (λ _ _. unless Touches _ _ _ _ (λ _.
      unless Touches _ _ _ _ (λ _. claim_position_action-Touches encode id snapshot lending _ _))))

module _ (same_address : Text → Text → Bool) where
  pub build_withdraw-Touches :
      (id : ℤ) (snapshot : Snapshot WithdrawState)
      → IfBuilt (build_withdraw same_address id snapshot) Touches
  unfolding build_withdraw withdraw_action ready_action flat_map resource_contracts
  build_withdraw-Touches id snapshot = after Touches _ _ _ _ (λ lending _.
      after Touches _ _ _ _
        (λ _ _. after Touches _ _ _ _ (λ _ _. unless Touches _ _ _ _ (λ _. has_first lending _))))

  pub build_adjust_rate-Touches :
      (encode : String → Values → Text) (intent : AdjustRateIntent)
      (snapshot : Snapshot AdjustRateState)
      → IfBuilt (build_adjust_rate encode same_address intent snapshot) Touches
  unfolding build_adjust_rate adjust_rate_action adjust_rate_call ready_action flat_map
      resource_contracts
  build_adjust_rate-Touches encode intent snapshot = after Touches _ _ _ _ (λ lending _.
      after Touches _ _ _ _ (λ _ _. unless Touches _ _ _ _ (λ _. after Touches _ _ _ _ (λ _ _.
        unless Touches _ _ _ _
          (λ _. unless Touches _ _ _ _ (λ _. unless Touches _ _ _ _ (λ _. has_first lending _)))))))

  pub build_stream_claim-Touches :
      (id : ℤ) (snapshot : Snapshot StreamClaimState)
      → IfBuilt (build_stream_claim same_address id snapshot) Touches
  unfolding build_stream_claim stream_claim_action ready_action flat_map resource_contracts
  build_stream_claim-Touches id snapshot = after Touches _ _ _ _ (λ _ _.
      unless Touches _ _ _ _ (λ _.
        unless Touches _ _ _ _
          (λ _. unless Touches _ _ _ _ (λ _. has_first snapshot.market.sablier _))))
