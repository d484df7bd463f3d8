-- ===== src/Refresh/Reads.antt =====
-- The cached reads of the contract that an action calls: web/lib/actions/registry.ts with
-- web/lib/query-resource-registry.ts and web/lib/invalidate.ts.
use Prim.Native.String.{String}
use ovrflo.Prelude.{
  ◌≡◌, refl, inl, inr, Bool, true, List, [], ◌∷◌, map, any, subst, Bool-cases, arith,
}
use ovrflo.Prelude.Int.{ℤ}
use ovrflo.Prelude.Text.{Text, text_eq, text_eq_iff, lower}
use ovrflo.Prelude.Errors.{ok, IfReturns}
use ovrflo.Action.{ActionIdentity, ReadyAction, built}
use ovrflo.Action.Value.{Values}
use ovrflo.Action.Loans.{IfBuilt}
use ovrflo.Action.Registry.{
  ActionIntent, ActionSnapshot, build_action, supply_intent, withdraw_intent, claim_share_intent,
  claim_position_intent, deposit_intent, claim_matured_intent, wrap_intent, unwrap_intent,
  borrow_intent, claim_stream_intent, adjust_rate_intent, repay_intent, close_intent,
  supply_snapshot, withdraw_snapshot, claim_share_snapshot, claim_position_snapshot,
  deposit_snapshot, claim_matured_snapshot, wrap_snapshot, unwrap_snapshot, borrow_snapshot,
  claim_stream_snapshot, adjust_rate_snapshot, repay_snapshot, close_snapshot,
}
use ovrflo.Refresh.{
  wagmi_key, resource_contracts, flat_map, touched_contracts, includes, key_mentions_any,
  plan_matches, is_invalidated,
}
use ovrflo.Refresh.Targets.{
  target_of, Touches, build_supply-Touches, build_withdraw-Touches, build_claim_share-Touches,
  build_claim_position-Touches, build_deposit-Touches, build_matured_claim-Touches,
  build_wrap-Touches, build_unwrap-Touches, build_stream_claim-Touches, build_adjust_rate-Touches,
}
use ovrflo.Refresh.Loans.{build_repay-Touches, build_close-Touches, build_borrow-Touches}

mentions_lowered :
    (key t : Text) (cs : List Text)
    → any (text_eq t) cs ≡ true
    → includes key (lower t) ≡ true
    → any (includes key) (map lower cs) ≡ true
mentions_lowered key t [] h m = absurd (cc)
mentions_lowered key t (c ∷ cs) h m = elim (Bool-cases (text_eq t c)) [
  | inl e ↦
      let here : includes key (lower c) ≡ true =
        subst (λ x. includes key (lower x) ≡ true) ((text_eq_iff t c).0 e) m in
      rw here refl
  | inr e ↦
      let later : any (text_eq t) cs ≡ true = ground arith in
      let rest = mentions_lowered key t cs later m in ground arith
]

module _ (is_address : Text → Bool) (same_address : Text → Text → Bool) (parse_units : Text → ℤ)
    (encode : String → Values → Text) where
  build_action-Touches :
      (intent : ActionIntent) (snapshot : ActionSnapshot)
      → IfReturns
          (build_action is_address same_address parse_units encode intent snapshot)
          (λ r. IfBuilt r Touches)
  unfolding build_action
  build_action-Touches (supply_intent i) (supply_snapshot s) = build_supply-Touches parse_units i s
  build_action-Touches (withdraw_intent i) (withdraw_snapshot s) =
      build_withdraw-Touches same_address i s
  build_action-Touches (claim_share_intent i) (claim_share_snapshot s) =
      build_claim_share-Touches i s
  build_action-Touches (claim_position_intent i) (claim_position_snapshot s) =
      build_claim_position-Touches encode i s
  build_action-Touches (deposit_intent i) (deposit_snapshot s) =
      build_deposit-Touches parse_units i s
  build_action-Touches (claim_matured_intent i) (claim_matured_snapshot s) =
      build_matured_claim-Touches parse_units i s
  build_action-Touches (wrap_intent i) (wrap_snapshot s) = build_wrap-Touches parse_units i s
  build_action-Touches (unwrap_intent i) (unwrap_snapshot s) = build_unwrap-Touches parse_units i s
  build_action-Touches (borrow_intent i) (borrow_snapshot s) =
      build_borrow-Touches is_address same_address parse_units i s
  build_action-Touches (claim_stream_intent i) (claim_stream_snapshot s) =
      build_stream_claim-Touches same_address i s
  build_action-Touches (adjust_rate_intent i) (adjust_rate_snapshot s) =
      build_adjust_rate-Touches same_address encode i s
  build_action-Touches (repay_intent i) (repay_snapshot s) =
      build_repay-Touches same_address parse_units i s
  build_action-Touches (close_intent i) (close_snapshot s) = build_close-Touches same_address i s
  build_action-Touches _ _ = tt

  -- When `buildAction` returns a built action, of any type, and the text of a cached read's key
  -- mentions the contract that the action calls, in whatever case, the plan to refresh what the
  -- action touches matches that read for every account and chain, and so does its invalidation.
  pub build_action-plan_matches :
      (intent : ActionIntent) (snapshot : ActionSnapshot) (a : ReadyAction)
      (identity : ActionIdentity) (factory key : Text)
      → build_action is_address same_address parse_units encode intent snapshot ≡ ok (built a)
      → includes (lower key) (lower (target_of a.call)) ≡ true
      → (plan_matches a.touched_resources identity (wagmi_key key) ≡ true)
        × (is_invalidated factory a.touched_resources (wagmi_key key) ≡ true)
  unfolding plan_matches is_invalidated key_mentions_any touched_contracts
  build_action-plan_matches intent snapshot a identity factory key returned mentions =
      let touches : Touches a =
        subst (λ r. IfReturns r (λ b. IfBuilt b Touches)) returned
          (build_action-Touches intent snapshot) in
      let matched =
        mentions_lowered (lower key) (target_of a.call)
          (flat_map resource_contracts a.touched_resources) touches mentions in
      (matched, matched)
