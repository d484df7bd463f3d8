-- ===== src/Action/Built/Claiming.antt =====
-- When the claims of web/lib/actions/claim.ts are built, and what they call.
use Prim.Native.String.{String}
use ovrflo.Prelude.{
  ◌≤◌, ◌≡◌, refl, ap, Bool, true, false, some, List, [], ◌∷◌, ◌++◌, map, take, length, length-take,
  All, All-filter, arith,
}
use ovrflo.Prelude.Int.{ℤ, pos, ◌<ℤ◌, ◌≤ℤ◌, ltb_ℤ, eqb_ℤ, eq_of_parts}
use ovrflo.Prelude.Sorting.{All-take, All-map}
use ovrflo.Prelude.Text.{Text}
use ovrflo.Action.{
  ReadyAction, CallData, FinalCall, FinalCalls, single, batch, no_calls, next_call, claim_matured,
  claim_stream, claim_position, ready_action,
}
use ovrflo.Action.Value.{Values, no_values, value, big, address}
use ovrflo.Action.Amount.{parsed, parse_positive_amount}
use ovrflo.Action.Repay.{Snapshot, fresh_data, lending_call}
use ovrflo.Action.Loans.{IfBuilt}
use ovrflo.Action.Convert.{vault_call}
use ovrflo.Action.Claim.{
  MaturedClaimState, StreamClaimState, ClaimPair, ClaimPositionState, matured_claim_capacity,
  matured_claim_action, build_matured_claim, sablier_call, stream_claim_action, build_stream_claim,
  claim_pairs_per_tx, claimable_from, positive_pairs, claim_args, claim_calls, claim_pairs_call,
  claim_position_action, build_claim_position,
}
use ovrflo.Action.Built.{IsReviewed, not-false, after_amount, after, unless}

-- What a claim of matured PT rests on, and what it is.
abbrev pub MaturedClaimBuilt : (Text → ℤ) → Text → Snapshot MaturedClaimState → ReadyAction → Type 0
MaturedClaimBuilt parse_units raw snapshot a =
    (amount : ℤ) × (parse_positive_amount parse_units raw ≡ parsed amount)
    × ((state : MaturedClaimState) × (fresh_data snapshot.state ≡ some state)
        × (snapshot.market.expiry ≤ℤ snapshot.market.now)
        × (amount ≤ℤ state.wallet_balance)
        × (amount ≤ℤ state.claimable_pt)
        × (amount ≤ℤ state.market_total_deposited)
        × IsReviewed claim_matured snapshot.identity a
        × (a.call
            ≡ single (
                vault_call snapshot.market.vault "claim"
                  (value (address snapshot.market.pt_token) (value (big amount) no_values))))
        × (a.authorizations ≡ []))

capacity_bounds :
    (state : MaturedClaimState) (amount : ℤ)
    → ltb_ℤ (matured_claim_capacity state) amount ≡ false
    → (amount ≤ℤ state.wallet_balance)
      × (amount ≤ℤ state.claimable_pt)
      × (amount ≤ℤ state.market_total_deposited)
unfolding matured_claim_capacity
capacity_bounds state amount h = (ground arith, ground arith, ground arith)

pub build_matured_claim_lem :
    (parse_units : Text → ℤ) (raw : Text) (snapshot : Snapshot MaturedClaimState)
    → IfBuilt
        (build_matured_claim parse_units raw snapshot)
        (MaturedClaimBuilt parse_units raw snapshot)
unfolding build_matured_claim matured_claim_action ready_action
build_matured_claim_lem parse_units raw snapshot =
    let P : ReadyAction → Type 0 = MaturedClaimBuilt parse_units raw snapshot in
    after_amount P _ _ (λ amount p. after P _ _ _ _ (λ state s. unless P _ _ _ _ (λ matured.
      unless P _ _ _ _ (λ within.
        let (wallet, claimable, deposited) = capacity_bounds state amount within in
        (
          amount,
          p,
          (
            state,
            s,
            ground arith,
            wallet,
            claimable,
            deposited,
            (refl, refl, refl, refl, refl, refl),
            refl,
            refl,
          ),
        )))))

module _ (same_address : Text → Text → Bool) where
  -- What a claim of a stream rests on, and what it is.
  abbrev pub StreamClaimBuilt : ℤ → Snapshot StreamClaimState → ReadyAction → Type 0
  StreamClaimBuilt stream_id snapshot a =
      (state : StreamClaimState) × (fresh_data snapshot.state ≡ some state)
      × (state.stream_id ≡ stream_id)
      × (same_address state.recipient snapshot.identity.account ≡ true)
      × (pos 0 <ℤ state.withdrawable)
      × IsReviewed claim_stream snapshot.identity a
      × (a.call
          ≡ single (
              sablier_call snapshot.market.sablier "withdrawMax"
                (value (big stream_id) (value (address snapshot.identity.account) no_values))))
      × (a.authorizations ≡ [])

  pub build_stream_claim_lem :
      (stream_id : ℤ) (snapshot : Snapshot StreamClaimState)
      → IfBuilt
          (build_stream_claim same_address stream_id snapshot)
          (StreamClaimBuilt stream_id snapshot)
  unfolding build_stream_claim stream_claim_action ready_action
  build_stream_claim_lem stream_id snapshot =
      let P : ReadyAction → Type 0 = StreamClaimBuilt stream_id snapshot in
      after P _ _ _ _ (λ state s. unless P _ _ _ _ (λ at. unless P _ _ _ _ (λ own.
        unless P _ _ _ _ (λ due.
          let matches : eqb_ℤ state.stream_id stream_id ≡ true = not-false _ at in
          (
            state,
            s,
            ground (arith, eq_of_parts state.stream_id stream_id),
            not-false _ own,
            ground arith,
            (refl, refl, refl, refl, refl, refl),
            refl,
            refl,
          )))))

-- The calls that a final call comes to.
abbrev mutual
  pub calls_of : FinalCall → List CallData
  calls_of (single c) = c ∷ []
  calls_of (batch c cs) = nested_calls cs

  pub nested_calls : FinalCalls → List CallData
  nested_calls no_calls = []
  nested_calls (next_call c cs) = calls_of c ++ nested_calls cs

abbrev pub claim_call : Text → ℤ → ClaimPair → CallData
claim_call lending position_id p = lending_call lending "claim" (claim_args p.loan_id position_id)

nested-claim_calls :
    (lending : Text) (position_id : ℤ) (ps : List ClaimPair)
    → nested_calls (claim_calls lending position_id ps) ≡ map (claim_call lending position_id) ps
unfolding claim_calls
nested-claim_calls lending position_id [] = refl
nested-claim_calls lending position_id (p ∷ ps) =
    ap (λ r. claim_call lending position_id p ∷ r) (nested-claim_calls lending position_id ps)

calls-claim_pairs_call :
    (encode : String → Values → Text) (lending : Text) (position_id : ℤ) (ps : List ClaimPair)
    → calls_of (claim_pairs_call encode lending position_id ps)
      ≡ map (claim_call lending position_id) ps
unfolding claim_pairs_call
calls-claim_pairs_call encode lending position_id [] = refl
calls-claim_pairs_call encode lending position_id (p ∷ []) = refl
calls-claim_pairs_call encode lending position_id (p ∷ q ∷ ps) =
    nested-claim_calls lending position_id (p ∷ q ∷ ps)

-- What a claim for a position rests on, and what it is: it claims the first of the loans on which
-- something is claimable, one call for each, and at most 32.
abbrev pub ClaimPositionBuilt : ℤ → Snapshot ClaimPositionState → ReadyAction → Type 0
ClaimPositionBuilt position_id snapshot a =
    (lending : Text) × (snapshot.market.lending ≡ some lending)
    × ((state : ClaimPositionState) × (fresh_data snapshot.state ≡ some state)
        × (state.position_id ≡ position_id)
        × ((pairs : List ClaimPair) × (pairs ≡ take claim_pairs_per_tx (positive_pairs state.pairs))
            × (1 ≤ length pairs)
            × (length pairs ≤ claim_pairs_per_tx)
            × All (λ (p : ClaimPair). pos 0 <ℤ p.claimable) pairs
            × IsReviewed claim_position snapshot.identity a
            × (calls_of a.call ≡ map (claim_call lending position_id) pairs)
            × (a.authorizations ≡ [])
            × (a.receipt_summary.expected_amounts
                ≡ ("claimable", claimable_from (pos 0) pairs) ∷ [])))

positive-All :
    (ps : List ClaimPair)
    → All (λ (p : ClaimPair). pos 0 <ℤ p.claimable) (take claim_pairs_per_tx (positive_pairs ps))
positive-All ps =
    All-take (λ (p : ClaimPair). pos 0 <ℤ p.claimable) claim_pairs_per_tx (positive_pairs ps)
      (All-map {P = λ (p : ClaimPair). ltb_ℤ (pos 0) p.claimable ≡ true}
        {Q = λ (p : ClaimPair). pos 0 <ℤ p.claimable} (λ p h. ground arith) (positive_pairs ps)
        (All-filter (λ (p : ClaimPair). ltb_ℤ (pos 0) p.claimable) ps))

pub build_claim_position_lem :
    (encode : String → Values → Text) (position_id : ℤ) (snapshot : Snapshot ClaimPositionState)
    → IfBuilt
        (build_claim_position encode position_id snapshot)
        (ClaimPositionBuilt position_id snapshot)
unfolding build_claim_position claim_position_action ready_action
build_claim_position_lem encode position_id snapshot =
    let P : ReadyAction → Type 0 = ClaimPositionBuilt position_id snapshot in
    after P _ _ _ _ (λ lending l. after P _ _ _ _ (λ state s. unless P _ _ _ _ (λ at.
      unless P _ _ _ _ (λ some_due.
        let matches : eqb_ℤ state.position_id position_id ≡ true = not-false _ at in
        let due = positive_pairs state.pairs in
        let bound = length-take claim_pairs_per_tx due in
        (
          lending,
          l,
          (
            state,
            s,
            ground (arith, eq_of_parts state.position_id position_id),
            (
              take claim_pairs_per_tx due,
              refl,
              ground (arith, bound),
              ground (arith, bound),
              positive-All state.pairs,
              (refl, refl, refl, refl, refl, refl),
              calls-claim_pairs_call encode lending position_id (take claim_pairs_per_tx due),
              refl,
              refl,
            ),
          ),
        )))))
