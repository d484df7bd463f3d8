-- ===== src/Runtime/Retry.antt =====
-- `retryCriticalRefresh` and `actionResultToDraft` of web/lib/action-runtime.ts.
use ovrflo.Prelude.{◌≡◌, refl, Bool, true, false, Option, inl, inr}
use ovrflo.Prelude.Text.{Text}
use ovrflo.Action.{ActionIdentity, ActionBuildResult, built, invalid_action, ReadyAction}
use ovrflo.Runtime.{
  Awaited, returned, threw, RebuildResult, rebuilt, not_rebuilt, ReceiptResult, success,
  refresh_failed, identity_changed, Call, Run, done, call, same_action_identity, on_same, is_same,
  same_cases, comparison_threw,
}

pub action_result_to_draft : {R : Type 0} → ActionBuildResult → (ReadyAction → R) → RebuildResult R
action_result_to_draft (built a) request_for =
    rebuilt (record { action = a; request = request_for a })
action_result_to_draft (invalid_action errors) request_for = not_rebuilt errors

module _ (same_address : Text → Text → Awaited Bool) {R : Type 0} where
  -- The answer to the second refresh.
  after_retry : ReceiptResult R → Awaited (Unit {0}) → Run R
  after_retry previous (threw e) = done (refresh_failed previous e)
  after_retry previous (returned _) = done (success previous)

  after_retry_identity : ReceiptResult R → Awaited (Option ActionIdentity) → Run R
  after_retry_identity previous (threw e) = done (refresh_failed previous e)
  after_retry_identity previous (returned current) =
      on_same (same_action_identity same_address previous.identity current)
        (call
          (Call.refresh previous.draft.action.touched_resources previous.identity previous.receipt)
          (after_retry previous))
        (done identity_changed) (λ e. done (comparison_threw e))

  -- `retryCriticalRefresh` of a result `refresh_failed previous`.
  pub retry_critical_refresh : ReceiptResult R → Run R
  retry_critical_refresh previous = call Call.get_identity (after_retry_identity previous)

  -- What is known before the next call of a retry: whether the identity read last is the one of
  -- the earlier result.
  abbrev pub agrees : ReceiptResult R → Awaited (Option ActionIdentity) → Bool
  agrees previous (threw e) = false
  agrees previous (returned i) = is_same (same_action_identity same_address previous.identity i)

  -- The calls are a read of the identity and, after an identity that agrees, a refresh of the same
  -- resources for the same receipt; the results are the earlier one, a changed
  -- identity, or a throw of the comparison.
  abbrev pub IsRefreshOnly : ReceiptResult R → Bool → Run R → Type 0
  IsRefreshOnly previous seen (done (success r)) = (r ≡ previous) × (seen ≡ true)
  IsRefreshOnly previous seen (done (refresh_failed r e)) = r ≡ previous
  IsRefreshOnly previous seen (done identity_changed) = seen ≡ false
  IsRefreshOnly previous seen (done (comparison_threw e)) = seen ≡ false
  IsRefreshOnly previous seen (done _) = ⊥
  IsRefreshOnly previous seen (call Call.get_identity k) =
      (a : Awaited (Option ActionIdentity)) → IsRefreshOnly previous (agrees previous a) (k a)
  IsRefreshOnly previous seen (call (Call.refresh rs i r) k) =
      (seen ≡ true)
      × (rs ≡ previous.draft.action.touched_resources)
      × (i ≡ previous.identity)
      × (r ≡ previous.receipt)
      × ((a : Awaited (Unit {0})) → IsRefreshOnly previous seen (k a))
  IsRefreshOnly previous seen (call _ k) = ⊥

  after_retry-IsRefreshOnly :
      (previous : ReceiptResult R) (a : Awaited (Unit {0}))
      → IsRefreshOnly previous true (after_retry previous a)
  unfolding after_retry
  after_retry-IsRefreshOnly previous (threw e) = refl
  after_retry-IsRefreshOnly previous (returned _) = (refl, refl)

  -- A retry of the refresh asks no wallet and submits nothing: whatever is answered, it reads the
  -- identity and, only if that is the identity of the earlier result, refreshes the resources of
  -- that result for its receipt; it ends with that result, with a changed identity, or with a throw
  -- of the comparison of accounts.
  pub retry_critical_refresh-IsRefreshOnly :
      (previous : ReceiptResult R) → IsRefreshOnly previous false (retry_critical_refresh previous)
  unfolding retry_critical_refresh after_retry_identity after_retry
  retry_critical_refresh-IsRefreshOnly previous (threw e) = refl
  retry_critical_refresh-IsRefreshOnly previous (returned current) =
      elim (same_cases (same_action_identity same_address previous.identity current)) [
        | inl h ↦ rw h (refl, refl, refl, refl, λ a. after_retry-IsRefreshOnly previous a)
        | inr (inl h) ↦ rw h refl
        | inr (inr (e, h)) ↦ rw h refl
      ]
