-- ===== src/Action/Registry.antt =====
-- `actionRegistry` and `buildAction` of web/lib/actions/registry.ts, and the intents and snapshots of
-- web/lib/actions/types.ts.
use Prim.Native.String.{String}
use ovrflo.Prelude.{Bool}
use ovrflo.Prelude.Int.{ℤ}
use ovrflo.Prelude.Text.{Text}
use ovrflo.Prelude.Errors.{Result, ok}
use ovrflo.Action.{action_snapshot_mismatch, ActionBuildResult}
use ovrflo.Action.Value.{Values}
use ovrflo.Action.Repay.{
  Snapshot, RepayIntent, RepayState, CloseState, refuse, build_repay, build_close,
}
use ovrflo.Action.Supply.{
  SupplyIntent, SupplyState, WithdrawState, ClaimShareState, build_supply, build_withdraw,
  build_claim_share,
}
use ovrflo.Action.Rate.{AdjustRateIntent, AdjustRateState, build_adjust_rate}
use ovrflo.Action.Convert.{
  DepositState, WrapState, UnwrapState, build_deposit, build_wrap, build_unwrap,
}
use ovrflo.Action.Claim.{
  MaturedClaimState, StreamClaimState, ClaimPositionState, build_matured_claim, build_stream_claim,
  build_claim_position,
}
use ovrflo.Action.Borrow.{BorrowIntent, build_borrow}
use ovrflo.Action.Borrow.Reads.{BorrowSnapshot}

-- An intent with an amount only is its text, and one with an identifier only is that.
pub data ActionIntent : Type 0 where
  supply_intent : SupplyIntent → ActionIntent
  withdraw_intent claim_share_intent claim_position_intent : ℤ → ActionIntent
  deposit_intent claim_matured_intent wrap_intent unwrap_intent : Text → ActionIntent
  borrow_intent : BorrowIntent → ActionIntent
  claim_stream_intent : ℤ → ActionIntent
  adjust_rate_intent : AdjustRateIntent → ActionIntent
  repay_intent : RepayIntent → ActionIntent
  close_intent : ℤ → ActionIntent

pub data ActionSnapshot : Type 0 where
  supply_snapshot : Snapshot SupplyState → ActionSnapshot
  withdraw_snapshot : Snapshot WithdrawState → ActionSnapshot
  claim_share_snapshot : Snapshot ClaimShareState → ActionSnapshot
  claim_position_snapshot : Snapshot ClaimPositionState → ActionSnapshot
  deposit_snapshot : Snapshot DepositState → ActionSnapshot
  claim_matured_snapshot : Snapshot MaturedClaimState → ActionSnapshot
  wrap_snapshot : Snapshot WrapState → ActionSnapshot
  unwrap_snapshot : Snapshot UnwrapState → ActionSnapshot
  borrow_snapshot : BorrowSnapshot → ActionSnapshot
  claim_stream_snapshot : Snapshot StreamClaimState → ActionSnapshot
  adjust_rate_snapshot : Snapshot AdjustRateState → ActionSnapshot
  repay_snapshot : Snapshot RepayState → ActionSnapshot
  close_snapshot : Snapshot CloseState → ActionSnapshot

abbrev pub mismatch : Result ActionBuildResult
mismatch = ok (refuse action_snapshot_mismatch "Intent and snapshot action types do not match")

module _ (is_address : Text → Bool) (same_address : Text → Text → Bool) (parse_units : Text → ℤ)
    (encode : String → Values → Text) where
  -- `buildAction`: each type of intent goes with the snapshot of that type.
  unfoldable pub build_action : ActionIntent → ActionSnapshot → Result ActionBuildResult
  build_action (supply_intent i) (supply_snapshot s) = ok (build_supply parse_units i s)
  build_action (withdraw_intent i) (withdraw_snapshot s) = ok (build_withdraw same_address i s)
  build_action (claim_share_intent i) (claim_share_snapshot s) = ok (build_claim_share i s)
  build_action (claim_position_intent i) (claim_position_snapshot s) =
      ok (build_claim_position encode i s)
  build_action (deposit_intent i) (deposit_snapshot s) = ok (build_deposit parse_units i s)
  build_action (claim_matured_intent i) (claim_matured_snapshot s) =
      ok (build_matured_claim parse_units i s)
  build_action (wrap_intent i) (wrap_snapshot s) = ok (build_wrap parse_units i s)
  build_action (unwrap_intent i) (unwrap_snapshot s) = ok (build_unwrap parse_units i s)
  build_action (borrow_intent i) (borrow_snapshot s) =
      build_borrow is_address same_address parse_units i s
  build_action (claim_stream_intent i) (claim_stream_snapshot s) =
      ok (build_stream_claim same_address i s)
  build_action (adjust_rate_intent i) (adjust_rate_snapshot s) =
      ok (build_adjust_rate encode same_address i s)
  build_action (repay_intent i) (repay_snapshot s) = ok (build_repay same_address parse_units i s)
  build_action (close_intent i) (close_snapshot s) = ok (build_close same_address i s)
  build_action _ _ = mismatch
