-- ===== src/Action/Claim.antt =====
-- web/lib/actions/claim.ts: claiming matured PT, a stream, and the loans of a position. viem's
-- `encodeFunctionData` on the lending contract's functions is the parameter `encode`.
use Prim.Native.String.{String}
use ovrflo.Prelude.{
  ℕ, ◌==◌, ltb, Bool, not, ◌||◌, Option, none, some, List, [], ◌∷◌, ◌++◌, map, filter, take, length,
  if◌then◌else◌,
}
use ovrflo.Prelude.Int.{ℤ, pos, ◌+ℤ◌, ltb_ℤ, leb_ℤ, eqb_ℤ}
use ovrflo.Prelude.Text.{Text}
use ovrflo.Units.{max_uint128}
use ovrflo.Action.{
  snapshot_not_ready, market_not_configured, market_not_matured, amount_over_capacity,
  snapshot_resource_mismatch, stream_not_owned, nothing_claimable, CallData, kind_sablier,
  FinalCall, FinalCalls, single, batch, no_calls, next_call, claim_matured, claim_stream,
  claim_position, at_market, at_stream, at_loan, at_liquidity_position, at_token_balance,
  big_figure, number_figure, flag_figure, ActionBuildResult, invalid_action, ready_action,
}
use ovrflo.Action.Value.{Values, no_values, value, big, address, array}
use ovrflo.Action.Amount.{parse_positive_amount}
use ovrflo.Action.Steps.{refuse_if, need_amount, need}
use ovrflo.Action.Repay.{Snapshot, fresh_data, lending_call}
use ovrflo.Action.Convert.{vault_call}

pub record MaturedClaimState : Type 0 where
  pub wallet_balance : ℤ
  pub claimable_pt : ℤ
  pub market_total_deposited : ℤ

pub record StreamClaimState : Type 0 where
  pub stream_id : ℤ
  pub recipient : Text
  pub withdrawable : ℤ

pub record ClaimPair : Type 0 where
  pub loan_id : ℤ
  pub claimable : ℤ

pub record ClaimPositionState : Type 0 where
  pub position_id : ℤ
  pub pairs : List ClaimPair
  pub truncated : Bool

-- `if (limit < capacity) capacity = limit;`
abbrev pub lower_to : ℤ → ℤ → ℤ
lower_to limit capacity = if ltb_ℤ limit capacity then limit else capacity

unfoldable pub matured_claim_capacity : MaturedClaimState → ℤ
matured_claim_capacity state =
    lower_to state.market_total_deposited (lower_to state.claimable_pt state.wallet_balance)

-- The capacity of the state, unless the market has not matured.
abbrev pub capacity_after : Bool → Option MaturedClaimState → Option ℤ
capacity_after early none = none
capacity_after early (some state) = if early then none else some (matured_claim_capacity state)

unfoldable pub matured_claim_max : Snapshot MaturedClaimState → Option ℤ
matured_claim_max snapshot =
    capacity_after (ltb_ℤ snapshot.market.now snapshot.market.expiry) (fresh_data snapshot.state)

unfoldable pub matured_claim_action : Snapshot MaturedClaimState → ℤ → ℤ → ActionBuildResult
matured_claim_action snapshot amount capacity =
    let market = snapshot.market in
    let account = snapshot.identity.account in
    ready_action claim_matured snapshot.identity "CLAIM MATURED PT"
      ("fresh-state" ∷ "market-matured" ∷ "amount-valid" ∷ "capacity-valid" ∷ []) []
      (single (
        vault_call market.vault "claim"
          (value (address market.pt_token) (value (big amount) no_values))))
      (at_market market.vault market.market
        ∷ at_token_balance market.pt_token account
        ∷ at_token_balance market.underlying account
        ∷ [])
      none (("amount", big_figure amount) ∷ ("capacity", big_figure capacity) ∷ [])
      (record {
        source = market.vault;
        event_name = some "Claimed";
        label = "CLAIMED";
        expected_ids = [];
        expected_amounts = ("claimed", amount) ∷ [];
      })

-- `maturedClaimDefinition.build`, of an intent with the amount.
unfoldable pub build_matured_claim :
    (Text → ℤ) → Text → Snapshot MaturedClaimState → ActionBuildResult
build_matured_claim parse_units raw snapshot =
    need_amount invalid_action (parse_positive_amount parse_units raw) (λ amount.
      need invalid_action (fresh_data snapshot.state) snapshot_not_ready
        "Claim state is not fresh and complete"
        (λ state.
          refuse_if invalid_action (ltb_ℤ snapshot.market.now snapshot.market.expiry)
            market_not_matured "PT claims open at maturity"
            (refuse_if invalid_action (ltb_ℤ (matured_claim_capacity state) amount)
              amount_over_capacity "Amount exceeds the fresh matured-claim capacity"
              (matured_claim_action snapshot amount (matured_claim_capacity state)))))

abbrev pub sablier_call : Text → String → Values → CallData
sablier_call sablier name args = record {
  target = sablier;
  contract = kind_sablier;
  function_name = name;
  args = args;
  value = pos 0;
}

unfoldable pub stream_claim_action :
    ℤ → Snapshot StreamClaimState → StreamClaimState → ActionBuildResult
stream_claim_action stream_id snapshot state =
    let market = snapshot.market in
    let account = snapshot.identity.account in
    ready_action claim_stream snapshot.identity "CLAIM STREAM"
      ("fresh-stream" ∷ "stream-owned" ∷ "positive-withdrawable" ∷ []) []
      (single (
        sablier_call market.sablier "withdrawMax"
          (value (big stream_id) (value (address account) no_values))))
      (at_stream market.sablier (some stream_id) ∷ at_token_balance market.underlying account ∷ [])
      none
      (("streamId", big_figure stream_id) ∷ ("withdrawable", big_figure state.withdrawable) ∷ [])
      (record {
        source = market.sablier;
        event_name = some "WithdrawFromLockupStream";
        label = "CLAIMED";
        expected_ids = stream_id ∷ [];
        expected_amounts = ("withdrawable", state.withdrawable) ∷ [];
      })

module _ (same_address : Text → Text → Bool) where
  -- `streamClaimDefinition.build`, of an intent to claim the stream.
  unfoldable pub build_stream_claim : ℤ → Snapshot StreamClaimState → ActionBuildResult
  build_stream_claim stream_id snapshot =
      need invalid_action (fresh_data snapshot.state) snapshot_not_ready
        "Stream claim state is not fresh and complete"
        (λ state.
          refuse_if invalid_action (not (eqb_ℤ state.stream_id stream_id))
            snapshot_resource_mismatch "Stream state does not match the claim intent"
            (refuse_if invalid_action (not (same_address state.recipient snapshot.identity.account))
              stream_not_owned "Connected account is not the stream recipient"
              (refuse_if invalid_action (leb_ℤ state.withdrawable (pos 0)) nothing_claimable
                "No stream balance is withdrawable"
                (stream_claim_action stream_id snapshot state))))

abbrev pub claim_pairs_per_tx : ℕ
claim_pairs_per_tx = 32

-- `batch.reduce((sum, pair) => sum + pair.claimable, start)`
abbrev pub claimable_from : ℤ → List ClaimPair → ℤ
claimable_from sum [] = sum
claimable_from sum (p ∷ ps) = claimable_from (sum +ℤ p.claimable) ps

abbrev pub positive_pairs : List ClaimPair → List ClaimPair
positive_pairs pairs = filter (λ (p : ClaimPair). ltb_ℤ (pos 0) p.claimable) pairs

abbrev pub claim_args : ℤ → ℤ → Values
claim_args loan_id position_id =
    value (big loan_id) (value (big position_id) (value (big max_uint128) no_values))

unfoldable pub claim_calls : Text → ℤ → List ClaimPair → FinalCalls
claim_calls lending position_id [] = no_calls
claim_calls lending position_id (p ∷ ps) =
    next_call (single (lending_call lending "claim" (claim_args p.loan_id position_id)))
      (claim_calls lending position_id ps)

module _ (encode : String → Values → Text) where
  unfoldable pub encoded_claims : ℤ → List ClaimPair → Values
  encoded_claims position_id [] = no_values
  encoded_claims position_id (p ∷ ps) =
      value (address (encode "claim" (claim_args p.loan_id position_id)))
        (encoded_claims position_id ps)

  -- One pair is claimed by a single call, and another number of pairs in a batch.
  unfoldable pub claim_pairs_call : Text → ℤ → List ClaimPair → FinalCall
  claim_pairs_call lending position_id (p ∷ []) =
      single (lending_call lending "claim" (claim_args p.loan_id position_id))
  claim_pairs_call lending position_id [] =
      batch (lending_call lending "multicall" (value (array no_values) no_values)) no_calls
  claim_pairs_call lending position_id (p ∷ q ∷ ps) =
      batch
        (lending_call lending "multicall"
          (value (array (encoded_claims position_id (p ∷ q ∷ ps))) no_values))
        (claim_calls lending position_id (p ∷ q ∷ ps))

  unfoldable pub claim_position_action :
      ℤ → Snapshot ClaimPositionState → Text → Bool → List ClaimPair → ActionBuildResult
  claim_position_action position_id snapshot lending truncated pairs =
      let total = claimable_from (pos 0) pairs in
      ready_action claim_position snapshot.identity "CLAIM"
        ("fresh-pairs" ∷ "positive-claimable" ∷ "pair-cap" ∷ []) []
        (claim_pairs_call lending position_id pairs)
        (at_liquidity_position lending position_id
            ∷ map (λ (p : ClaimPair). at_loan lending p.loan_id) pairs
          ++ at_token_balance snapshot.market.ovrflo_token snapshot.identity.account ∷ [])
        none
        (("positionId", big_figure position_id)
          ∷ ("pairCount", number_figure (length pairs))
          ∷ ("truncated", flag_figure truncated)
          ∷ ("claimable", big_figure total)
          ∷ [])
        (record {
          source = lending;
          event_name = some "Claimed";
          label = "CLAIMED";
          expected_ids = position_id ∷ map (λ (p : ClaimPair). p.loan_id) pairs;
          expected_amounts = ("claimable", total) ∷ [];
        })

  -- `claimPositionDefinition.build`, of an intent to claim for the position.
  unfoldable pub build_claim_position : ℤ → Snapshot ClaimPositionState → ActionBuildResult
  build_claim_position position_id snapshot =
      need invalid_action snapshot.market.lending market_not_configured "Lending is not deployed"
        (λ lending.
          need invalid_action (fresh_data snapshot.state) snapshot_not_ready
            "Position claim state is not fresh and complete"
            (λ state.
              refuse_if invalid_action (not (eqb_ℤ state.position_id position_id))
                snapshot_resource_mismatch "Claim pairs do not match the selected position"
                (refuse_if invalid_action (length (positive_pairs state.pairs) == 0)
                  nothing_claimable "No loan pairs are currently claimable"
                  (claim_position_action position_id snapshot lending
                    (state.truncated
                      || ltb claim_pairs_per_tx (length (positive_pairs state.pairs)))
                    (take claim_pairs_per_tx (positive_pairs state.pairs))))))
