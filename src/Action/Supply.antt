-- ===== src/Action/Supply.antt =====
-- web/lib/actions/supply.ts: supplying liquidity, withdrawing it, and claiming a pool's share of a
-- loan. A rate is a whole number that is not negative, as elsewhere in the model.
use ovrflo.Prelude.{
  ℕ, ◌%◌, Bool, not, ◌||◌, Option, none, some, [], ◌∷◌, ltb, leb, ◌==◌, if◌then◌else◌,
}
use ovrflo.Prelude.Int.{ℤ, pos, ltb_ℤ, leb_ℤ, eqb_ℤ}
use ovrflo.Prelude.Text.{Text}
use ovrflo.Units.{max_uint128}
use ovrflo.LendingMath.{apr_step_bps}
use ovrflo.Router.{LiquidityPosition, max_safe_integer}
use ovrflo.Action.{
  market_not_configured, snapshot_not_ready, market_matured, invalid_apr, wallet_insufficient,
  position_not_found, not_owner, nothing_claimable, single, supply, withdraw, claim_share,
  at_market_depth, at_liquidity_position, at_loan, at_token_balance, at_allowance, big_figure,
  number_figure, ActionBuildResult, invalid_action, erc20_authorization, ready_action,
}
use ovrflo.Action.Value.{Values, no_values, value, big, number, address}
use ovrflo.Action.Amount.{parse_positive_amount}
use ovrflo.Action.Steps.{refuse_if, need_amount, need}
use ovrflo.Action.Repay.{Snapshot, fresh_data, lending_call}

pub record SupplyIntent : Type 0 where
  pub amount : Text
  pub apr_bps : ℕ

pub record SupplyState : Type 0 where
  pub wallet_balance : ℤ
  pub allowance : ℤ
  pub apr_min_bps : ℕ
  pub apr_max_bps : ℕ

-- The state of a snapshot for a withdrawal.
pub record WithdrawState : Type 0 where
  pub position : Option LiquidityPosition

pub record ClaimShareState : Type 0 where
  pub loan_id : ℤ
  pub claimable : ℤ

-- The condition on a rate that is not postable.
unfoldable pub apr_refused : ℕ → ℕ → ℕ → Bool
apr_refused apr_min_bps apr_max_bps apr_bps =
    not (leb apr_bps max_safe_integer)
    || ltb apr_bps apr_min_bps
    || ltb apr_max_bps apr_bps
    || not (apr_bps % apr_step_bps == 0)

-- `!position || position.id !== id || position.availableLiquidity <= 0n`, or else the position.
unfoldable pub active_position : ℤ → Option LiquidityPosition → Option LiquidityPosition
active_position id none = none
active_position id (some p) =
    if not (eqb_ℤ p.id id) || leb_ℤ p.available_liquidity (pos 0) then none else some p

-- The arguments of `supply`.
abbrev pub supply_args : Text → ℕ → ℤ → Values
supply_args market apr_bps amount =
    value (address market) (value (number apr_bps) (value (big amount) no_values))

-- The action that `supplyDefinition` builds once every check has passed.
unfoldable pub supply_action :
    SupplyIntent → Snapshot SupplyState → ℤ → Text → SupplyState → ActionBuildResult
supply_action intent snapshot amount lending state =
    let market = snapshot.market in
    ready_action supply snapshot.identity "SUPPLY LIQUIDITY"
      ("fresh-state" ∷ "market-live" ∷ "apr-postable" ∷ "amount-valid" ∷ [])
      (erc20_authorization market.underlying lending amount amount state.allowance ∷ [])
      (single (lending_call lending "supply" (supply_args market.market intent.apr_bps amount)))
      (at_market_depth lending market.market (some intent.apr_bps)
        ∷ at_token_balance market.underlying snapshot.identity.account
        ∷ at_allowance market.underlying snapshot.identity.account lending
        ∷ [])
      none (("amount", big_figure amount) ∷ ("aprBps", number_figure intent.apr_bps) ∷ [])
      (record {
        source = lending;
        event_name = some "Supplied";
        label = "SUPPLIED";
        expected_ids = [];
        expected_amounts = ("supplied", amount) ∷ [];
      })

-- `supplyDefinition.build`
unfoldable pub build_supply : (Text → ℤ) → SupplyIntent → Snapshot SupplyState → ActionBuildResult
build_supply parse_units intent snapshot =
    need_amount invalid_action (parse_positive_amount parse_units intent.amount) (λ amount.
      need invalid_action snapshot.market.lending market_not_configured "Lending is not deployed"
        (λ lending.
          need invalid_action (fresh_data snapshot.state) snapshot_not_ready
            "Supply state is not fresh and complete"
            (λ state.
              refuse_if invalid_action (leb_ℤ snapshot.market.expiry snapshot.market.now)
                market_matured "Supply closes at maturity"
                (refuse_if invalid_action
                  (apr_refused state.apr_min_bps state.apr_max_bps intent.apr_bps) invalid_apr
                  "APR is outside the current posting bounds"
                  (refuse_if invalid_action (ltb_ℤ state.wallet_balance amount) wallet_insufficient
                    "Amount exceeds wallet balance"
                    (supply_action intent snapshot amount lending state))))))

unfoldable pub withdraw_action :
    ℤ → Snapshot WithdrawState → Text → LiquidityPosition → ActionBuildResult
withdraw_action position_id snapshot lending position =
    ready_action withdraw snapshot.identity "WITHDRAW LIQUIDITY"
      ("fresh-position" ∷ "position-owned" ∷ "position-active" ∷ []) []
      (single (lending_call lending "withdraw" (value (big position_id) no_values)))
      (at_liquidity_position lending position_id
        ∷ at_market_depth lending position.market (some position.apr_bps)
        ∷ at_token_balance snapshot.market.underlying snapshot.identity.account
        ∷ [])
      none
      (("positionId", big_figure position_id)
        ∷ ("amount", big_figure position.available_liquidity)
        ∷ [])
      (record {
        source = lending;
        event_name = some "Withdrawn";
        label = "WITHDRAWN";
        expected_ids = position_id ∷ [];
        expected_amounts = ("requested", position.available_liquidity) ∷ [];
      })

module _ (same_address : Text → Text → Bool) where
  -- `withdrawDefinition.build`, of an intent to withdraw the position.
  unfoldable pub build_withdraw : ℤ → Snapshot WithdrawState → ActionBuildResult
  build_withdraw position_id snapshot =
      need invalid_action snapshot.market.lending market_not_configured "Lending is not deployed"
        (λ lending.
          need invalid_action (fresh_data snapshot.state) snapshot_not_ready
            "Position state is not fresh and complete"
            (λ state.
              need invalid_action (active_position position_id state.position) position_not_found
                "Liquidity position is not withdrawable"
                (λ position.
                  refuse_if invalid_action
                    (not (same_address position.lender snapshot.identity.account)) not_owner
                    "Connected account does not own this position"
                    (withdraw_action position_id snapshot lending position))))

unfoldable pub claim_share_action :
    ℤ → Snapshot ClaimShareState → Text → ClaimShareState → ActionBuildResult
claim_share_action loan_id snapshot lending state =
    ready_action claim_share snapshot.identity "CLAIM SHARE"
      ("fresh-claim" ∷ "positive-claimable" ∷ []) []
      (single (
        lending_call lending "claim"
          (value (big loan_id) (value (big (pos 0)) (value (big max_uint128) no_values)))))
      (at_loan lending loan_id
        ∷ at_token_balance snapshot.market.ovrflo_token snapshot.identity.account
        ∷ [])
      none (("loanId", big_figure loan_id) ∷ ("claimable", big_figure state.claimable) ∷ [])
      (record {
        source = lending;
        event_name = some "Claimed";
        label = "CLAIMED";
        expected_ids = loan_id ∷ [];
        expected_amounts = ("claimable", state.claimable) ∷ [];
      })

-- `claimShareDefinition.build`, of an intent to claim from the loan.
unfoldable pub build_claim_share : ℤ → Snapshot ClaimShareState → ActionBuildResult
build_claim_share loan_id snapshot =
    need invalid_action snapshot.market.lending market_not_configured "Lending is not deployed"
      (λ lending.
        need invalid_action (fresh_data snapshot.state) snapshot_not_ready
          "Pool claim state is not fresh and complete"
          (λ state.
            refuse_if invalid_action
              (not (eqb_ℤ state.loan_id loan_id) || leb_ℤ state.claimable (pos 0)) nothing_claimable
              "No pool share is currently claimable"
              (claim_share_action loan_id snapshot lending state)))
