-- ===== src/Action/Rate.antt =====
-- `adjustRateDefinition` of web/lib/actions/positions.ts: a position is withdrawn and supplied again
-- at another rate, in one batch. viem's `encodeFunctionData` on the lending contract's functions is
-- the parameter `encode`.
use Prim.Native.String.{String}
use ovrflo.Prelude.{ℕ, Bool, not, Option, none, some, [], ◌∷◌, ◌==◌}
use ovrflo.Prelude.Int.{ℤ, leb_ℤ}
use ovrflo.Prelude.Text.{Text}
use ovrflo.Router.{LiquidityPosition}
use ovrflo.Action.{
  market_not_configured, snapshot_not_ready, market_matured, invalid_apr, same_rate,
  position_not_found, not_owner, FinalCall, single, batch, no_calls, next_call, adjust_rate,
  at_market_depth, at_liquidity_position, at_allowance, big_figure, number_figure,
  ActionBuildResult, invalid_action, erc20_authorization, ready_action,
}
use ovrflo.Action.Value.{Values, no_values, value, big, address, array}
use ovrflo.Action.Steps.{refuse_if, need}
use ovrflo.Action.Repay.{Snapshot, fresh_data, lending_call}
use ovrflo.Action.Supply.{apr_refused, active_position, supply_args}

pub record AdjustRateIntent : Type 0 where
  pub position_id : ℤ
  pub new_apr_bps : ℕ

pub record AdjustRateState : Type 0 where
  pub position : Option LiquidityPosition
  pub allowance : ℤ
  pub apr_min_bps : ℕ
  pub apr_max_bps : ℕ

module _ (encode : String → Values → Text) where
  -- The withdrawal of the position and the supply of what it held, as one call.
  unfoldable pub adjust_rate_call : Text → Text → AdjustRateIntent → ℤ → FinalCall
  adjust_rate_call lending market intent amount =
      let withdraw_args = value (big intent.position_id) no_values in
      let args = supply_args market intent.new_apr_bps amount in
      batch
        (lending_call lending "multicall" (
          value
            (array (
              value (address (encode "withdraw" withdraw_args))
                (value (address (encode "supply" args)) no_values)))
            no_values))
        (next_call (single (lending_call lending "withdraw" withdraw_args))
          (next_call (single (lending_call lending "supply" args)) no_calls))

  unfoldable pub adjust_rate_action :
      AdjustRateIntent
      → Snapshot AdjustRateState
      → Text
      → AdjustRateState
      → LiquidityPosition
      → ActionBuildResult
  adjust_rate_action intent snapshot lending state position =
      let market = snapshot.market in
      let amount = position.available_liquidity in
      ready_action adjust_rate snapshot.identity "ADJUST RATE"
        ("fresh-position" ∷ "position-owned" ∷ "position-active" ∷ "apr-postable" ∷ [])
        (erc20_authorization market.underlying lending amount amount state.allowance ∷ [])
        (adjust_rate_call lending market.market intent amount)
        (at_liquidity_position lending intent.position_id
          ∷ at_market_depth lending position.market (some position.apr_bps)
          ∷ at_market_depth lending position.market (some intent.new_apr_bps)
          ∷ at_allowance market.underlying snapshot.identity.account lending
          ∷ [])
        none
        (("positionId", big_figure intent.position_id)
          ∷ ("amount", big_figure amount)
          ∷ ("oldAprBps", number_figure position.apr_bps)
          ∷ ("newAprBps", number_figure intent.new_apr_bps)
          ∷ [])
        (record {
          source = lending;
          event_name = none;
          label = "RATE ADJUSTED";
          expected_ids = intent.position_id ∷ [];
          expected_amounts = ("moved", amount) ∷ [];
        })

  -- `adjustRateDefinition.build`
  unfoldable pub build_adjust_rate :
      (Text → Text → Bool) → AdjustRateIntent → Snapshot AdjustRateState → ActionBuildResult
  build_adjust_rate same_address intent snapshot =
      need invalid_action snapshot.market.lending market_not_configured "Lending is not deployed"
        (λ lending.
          need invalid_action (fresh_data snapshot.state) snapshot_not_ready
            "Position state is not fresh and complete"
            (λ state.
              refuse_if invalid_action (leb_ℤ snapshot.market.expiry snapshot.market.now)
                market_matured "Rate changes close at maturity"
                (need invalid_action (active_position intent.position_id state.position)
                  position_not_found "Liquidity position is not active"
                  (λ position.
                    refuse_if invalid_action
                      (not (same_address position.lender snapshot.identity.account)) not_owner
                      "Connected account does not own this position"
                      (refuse_if invalid_action
                        (apr_refused state.apr_min_bps state.apr_max_bps intent.new_apr_bps)
                        invalid_apr "APR is outside the current posting bounds"
                        (refuse_if invalid_action (intent.new_apr_bps == position.apr_bps) same_rate
                          "Select a different APR"
                          (adjust_rate_action intent snapshot lending state position)))))))
