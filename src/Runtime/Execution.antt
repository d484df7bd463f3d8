-- ===== src/Runtime/Execution.antt =====
-- `runActionExecution` of web/lib/action-runtime.ts: the run, one definition for each answer that it
-- waits for.
use Prim.Native.String.{String}
use ovrflo.Prelude.{
  ℕ, zero, suc, Bool, true, false, Option, none, some, List, [], ◌∷◌, if◌then◌else◌, any,
}
use ovrflo.Prelude.Text.{Text}
use ovrflo.Action.{ActionIdentity, Authorization}
use ovrflo.Action.Review.{accepted, needs_review, revalidate_review}
use ovrflo.Runtime.{
  ActionExecutionDraft, Awaited, ExecutionReceipt, Failure, RebuildResult, ReceiptResult, Run,
  approving, authorization_failed, authorize, call, confirming, connect, connecting, done,
  get_identity, identity_changed, invalid, is_user_rejection, next_authorization, not_rebuilt,
  on_phase, out_of_fuel, comparison_threw, on_same, rebuild, rebuilt, refresh, refresh_failed,
  refreshing, rejected, unsatisfied, returned, revalidating, reverted, review_needed,
  same_action_identity, same_key, signing, simulate, simulating, simulation_failed, snapshot_error,
  submit, success, threw, transport_failed, wait_for_receipt,
}

module _ (same_address : Text → Text → Awaited Bool) (key_before : String → String → Bool)
    {R : Type 0} where
  pub material_review_matches : ActionExecutionDraft R → ActionExecutionDraft R → Bool
  material_review_matches old new =
      elim (revalidate_review key_before old.action.review new.action.review) [
        | accepted ↦ true
        | needs_review r ↦ false
      ]

  -- The run of the plan whose accepted draft is `plan`; `can_connect` says whether the runtime has
  -- a `connect`.
  module _ (plan : ActionExecutionDraft R) (can_connect : Bool) where
    abbrev pub accepted_identity : ActionIdentity
    accepted_identity = plan.action.identity

    -- `if (!sameActionIdentity(acceptedIdentity, …)) return identity_changed`, or on.
    unfoldable pub unless_changed : Option ActionIdentity → Run R → Run R
    unless_changed i next =
        on_same (same_action_identity same_address accepted_identity i) next (done identity_changed)
          (λ e. done (comparison_threw e))

    -- An identity was read, in a `try` that ends in `transport_failed`.
    unfoldable pub after_identity : Run R → Awaited (Option ActionIdentity) → Run R
    after_identity next (threw e) = done (transport_failed e)
    after_identity next (returned i) = unless_changed i next

    unfoldable pub after_refresh : ReceiptResult R → Awaited (Unit {0}) → Run R
    after_refresh r (threw e) = done (refresh_failed r e)
    after_refresh r (returned _) = done (success r)

    unfoldable pub after_receipt : ActionExecutionDraft R → Text → Awaited ExecutionReceipt → Run R
    after_receipt d hash (threw e) = done (transport_failed e)
    after_receipt d hash (returned receipt) =
        if receipt.is_success
        then call (on_phase refreshing) (λ _.
          call (refresh d.action.touched_resources accepted_identity receipt) (
            after_refresh
              (record { hash = hash; receipt = receipt; draft = d; identity = accepted_identity })))
        else done (reverted hash receipt)

    unfoldable pub after_submit : ActionExecutionDraft R → Awaited Text → Run R
    after_submit d (threw e) =
        if is_user_rejection e then done (rejected e) else done (transport_failed e)
    after_submit d (returned hash) =
        call (on_phase confirming) (λ _. call (wait_for_receipt hash) (after_receipt d hash))

    unfoldable pub after_simulate : ActionExecutionDraft R → Awaited R → Run R
    after_simulate d (threw e) = done (simulation_failed e)
    after_simulate d (returned r) =
        call get_identity
          (after_identity (call (on_phase signing) (λ _. call (submit r) (after_submit d))))

    -- From the simulation to the end.
    unfoldable pub sign : ActionExecutionDraft R → Run R
    sign d =
        call (on_phase simulating)
          (λ _. call (simulate d.request accepted_identity) (after_simulate d))

    -- `rebuildAccepted`, in a `try` that ends in `transport_failed`, and the test of its status.
    unfoldable pub after_rebuild :
        (ActionExecutionDraft R → Run R) → Awaited (RebuildResult R) → Run R
    after_rebuild next (threw e) = done (transport_failed e)
    after_rebuild next (returned (not_rebuilt errors)) = done (invalid errors)
    after_rebuild next (returned (rebuilt d)) =
        on_same (same_action_identity same_address accepted_identity (some d.action.identity))
          (if material_review_matches plan d then next d else done (review_needed d))
          (done (invalid (snapshot_error ∷ []))) (λ e. done (transport_failed e))

    unfoldable pub after_failed_authorization : Failure → Awaited (Option ActionIdentity) → Run R
    after_failed_authorization e (threw f) = done (transport_failed f)
    after_failed_authorization e (returned i) =
        unless_changed i
          (if is_user_rejection e then done (rejected e) else done (authorization_failed (some e)))

    -- The rest of the loop's body, once the wallet has answered; `next` is the next round.
    unfoldable pub after_authorize :
        (ActionExecutionDraft R → Run R) → Awaited ExecutionReceipt → Run R
    after_authorize next (threw e) = call get_identity (after_failed_authorization e)
    after_authorize next (returned receipt) =
        if receipt.is_success
        then call get_identity (
            after_identity (
              call (on_phase revalidating) (λ _.
                call (rebuild accepted_identity)
                  (after_rebuild (λ d. call get_identity (after_identity (next d)))))))
        else done (authorization_failed none)

    -- One round for the next authorization, or the signature when there is none.
    unfoldable pub authorize_round :
        (Authorization → ActionExecutionDraft R → Run R)
        → List Authorization
        → ActionExecutionDraft R
        → Option Authorization
        → Run R
    authorize_round next attempted d none = sign d
    authorize_round next attempted d (some a) =
        if any (same_key a) attempted
        then done (authorization_failed (some unsatisfied))
        else call get_identity (
            after_identity (
              call (on_phase approving)
                (λ _. call (authorize a accepted_identity) (after_authorize (next a)))))

    -- The loop over the authorizations, with the ones that were attempted.
    unfoldable pub authorize_all : ℕ → List Authorization → ActionExecutionDraft R → Run R
    authorize_all zero attempted d = done out_of_fuel
    authorize_all (suc fuel) attempted d =
        authorize_round (λ a. authorize_all fuel (a ∷ attempted)) attempted d (next_authorization d)

    -- The run once the identity is known to be the accepted one.
    unfoldable pub latched : ℕ → Run R
    latched fuel =
        call (on_phase revalidating)
          (λ _. call (rebuild accepted_identity) (after_rebuild (authorize_all fuel [])))

    -- What `runActionExecution` makes of the error of `currentOrConnectedIdentity`.
    unfoldable pub not_connected : Failure → Run R
    not_connected e = if is_user_rejection e then done (rejected e) else done (transport_failed e)

    unfoldable pub after_connect : ℕ → Awaited ActionIdentity → Run R
    after_connect fuel (threw e) = not_connected e
    after_connect fuel (returned i) = unless_changed (some i) (latched fuel)

    -- `currentOrConnectedIdentity` and what follows it.
    unfoldable pub after_current : ℕ → Awaited (Option ActionIdentity) → Run R
    after_current fuel (threw e) = not_connected e
    after_current fuel (returned (some i)) = unless_changed (some i) (latched fuel)
    after_current fuel (returned none) =
        if can_connect
        then call (on_phase connecting) (λ _. call connect (after_connect fuel))
        else unless_changed none (latched fuel)

    unfoldable pub run_action_execution : ℕ → Run R
    run_action_execution fuel = call get_identity (after_current fuel)
