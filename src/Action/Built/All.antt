-- ===== src/Action/Built/All.antt =====
-- `buildAction` of web/lib/actions/registry.ts: what any action that it builds rests on.
use Prim.Native.String.{String}
use ovrflo.Prelude.{◌≡◌, some, Bool}
use ovrflo.Prelude.Int.{ℤ, pos, ◌<ℤ◌}
use ovrflo.Prelude.Text.{Text}
use ovrflo.Prelude.Errors.{IfReturns}
use ovrflo.Action.{ReadyAction}
use ovrflo.Action.Value.{Values}
use ovrflo.Action.Amount.{parsed, parse_positive_amount}
use ovrflo.Action.Repay.{fresh_data}
use ovrflo.Action.Loans.{IfBuilt, RepayBuilt, build_repay_lem}
use ovrflo.Action.Closing.{CloseBuilt, build_close_lem}
use ovrflo.Action.Registry.{
  ActionIntent, ActionSnapshot, build_action, supply_intent, withdraw_intent, claim_share_intent,
  claim_position_intent, deposit_intent, claim_matured_intent, wrap_intent, unwrap_intent,
  borrow_intent, claim_stream_intent, adjust_rate_intent, repay_intent, close_intent,
  supply_snapshot, withdraw_snapshot, claim_share_snapshot, claim_position_snapshot,
  deposit_snapshot, claim_matured_snapshot, wrap_snapshot, unwrap_snapshot, borrow_snapshot,
  claim_stream_snapshot, adjust_rate_snapshot, repay_snapshot, close_snapshot,
}
use ovrflo.Action.Built.Supplying.{
  SupplyBuilt, WithdrawBuilt, ClaimShareBuilt, AdjustRateBuilt, build_supply_lem,
  build_withdraw_lem, build_claim_share_lem, build_adjust_rate_lem,
}
use ovrflo.Action.Built.Converting.{
  DepositBuilt, WrapBuilt, UnwrapBuilt, build_deposit_lem, build_wrap_lem, build_unwrap_lem,
}
use ovrflo.Action.Built.Claiming.{
  MaturedClaimBuilt, StreamClaimBuilt, ClaimPositionBuilt, build_matured_claim_lem,
  build_stream_claim_lem, build_claim_position_lem,
}
use ovrflo.Action.Built.Borrowing.{BorrowBuilt, build_borrow_lem}

module _ (same_address : Text → Text → Bool) (parse_units : Text → ℤ)
    (encode : String → Values → Text) where
  -- What a built action rests on, by the type of its intent and snapshot. Of different types there
  -- is none.
  abbrev pub Justified : ActionIntent → ActionSnapshot → ReadyAction → Type 0
  Justified (supply_intent i) (supply_snapshot s) a = SupplyBuilt parse_units i s a
  Justified (withdraw_intent i) (withdraw_snapshot s) a = WithdrawBuilt same_address i s a
  Justified (claim_share_intent i) (claim_share_snapshot s) a = ClaimShareBuilt i s a
  Justified (claim_position_intent i) (claim_position_snapshot s) a = ClaimPositionBuilt i s a
  Justified (deposit_intent i) (deposit_snapshot s) a = DepositBuilt parse_units i s a
  Justified (claim_matured_intent i) (claim_matured_snapshot s) a =
      MaturedClaimBuilt parse_units i s a
  Justified (wrap_intent i) (wrap_snapshot s) a = WrapBuilt parse_units i s a
  Justified (unwrap_intent i) (unwrap_snapshot s) a = UnwrapBuilt parse_units i s a
  Justified (borrow_intent i) (borrow_snapshot s) a = BorrowBuilt same_address parse_units i s a
  Justified (claim_stream_intent i) (claim_stream_snapshot s) a =
      StreamClaimBuilt same_address i s a
  Justified (adjust_rate_intent i) (adjust_rate_snapshot s) a =
      AdjustRateBuilt same_address encode i s a
  Justified (repay_intent i) (repay_snapshot s) a =
      (amount : ℤ) × (parse_positive_amount parse_units i.amount ≡ parsed amount)
      × (pos 0 <ℤ amount)
      × ((lending : Text) × (s.market.lending ≡ some lending)
          × RepayBuilt same_address s i.loan_id amount lending (fresh_data s.state) a)
  Justified (close_intent i) (close_snapshot s) a =
      CloseBuilt same_address i s s.market.lending (fresh_data s.state) a
  Justified _ _ a = ⊥

module _ (is_address : Text → Bool) (same_address : Text → Text → Bool) (parse_units : Text → ℤ)
    (encode : String → Values → Text) where
  -- An action that `buildAction` builds is justified, whatever its type. Intent and snapshot are
  -- of that type; every read that it uses is fresh and ready; its amount is the positive amount
  -- of the intent's text, within the balance, the capacity or the debt that was read; the
  -- position, stream or loan is the one of the intent and belongs to the account where the
  -- action needs that; the market is before or after maturity as the action needs; a borrow
  -- rests on one block and on a route that is ready. The action calls exactly the contract
  -- function of its type with those values, and asks for exactly the approvals listed.
  pub build_action-Justified :
      (intent : ActionIntent) (snapshot : ActionSnapshot)
      → IfReturns
          (build_action is_address same_address parse_units encode intent snapshot)
          (λ r. IfBuilt r (Justified same_address parse_units encode intent snapshot))
  unfolding build_action
  build_action-Justified (supply_intent i) (supply_snapshot s) = build_supply_lem parse_units i s
  build_action-Justified (withdraw_intent i) (withdraw_snapshot s) =
      build_withdraw_lem same_address i s
  build_action-Justified (claim_share_intent i) (claim_share_snapshot s) = build_claim_share_lem i s
  build_action-Justified (claim_position_intent i) (claim_position_snapshot s) =
      build_claim_position_lem encode i s
  build_action-Justified (deposit_intent i) (deposit_snapshot s) = build_deposit_lem parse_units i s
  build_action-Justified (claim_matured_intent i) (claim_matured_snapshot s) =
      build_matured_claim_lem parse_units i s
  build_action-Justified (wrap_intent i) (wrap_snapshot s) = build_wrap_lem parse_units i s
  build_action-Justified (unwrap_intent i) (unwrap_snapshot s) = build_unwrap_lem parse_units i s
  build_action-Justified (borrow_intent i) (borrow_snapshot s) =
      build_borrow_lem is_address same_address parse_units i s
  build_action-Justified (claim_stream_intent i) (claim_stream_snapshot s) =
      build_stream_claim_lem same_address i s
  build_action-Justified (adjust_rate_intent i) (adjust_rate_snapshot s) =
      build_adjust_rate_lem same_address encode i s
  build_action-Justified (repay_intent i) (repay_snapshot s) =
      build_repay_lem same_address parse_units i s
  build_action-Justified (close_intent i) (close_snapshot s) = build_close_lem same_address i s
  build_action-Justified _ _ = tt
