-- ===== src/Runtime/Ends.antt =====
-- `runActionExecution` of web/lib/action-runtime.ts comes to a result: with one round more than there
-- are keys of authorizations, the fuel does not run out.
use Prim.Native.String.{String}
use ovrflo.Prelude.{
  ℕ, zero, suc, ◌≡◌, ◌≢◌, ◌<◌, Bool, true, false, not, inl, inr, Option, none, some, List, [], ◌∷◌,
  if◌then◌else◌, any, arith, Bool-cases, Option-cases, length, length-filter-le,
}
use ovrflo.Prelude.Text.{Text}
use ovrflo.Action.{ActionIdentity, Authorization}
use ovrflo.Runtime.{
  Awaited, returned, threw, Failure, ActionExecutionDraft, RebuildResult, rebuilt, not_rebuilt,
  ExecutionReceipt, ReceiptResult, ActionExecutionResult, out_of_fuel, rejected, transport_failed,
  identity_changed, comparison_threw, invalid, review_needed, snapshot_error, Call, Answer, Run,
  done, call, next_authorization, same_key, same_action_identity, on_same, is_user_rejection,
}
use ovrflo.Runtime.Execution.{
  material_review_matches, unless_changed, after_identity, after_refresh, after_receipt,
  after_submit, after_simulate, sign, after_rebuild, after_failed_authorization, after_authorize,
  authorize_round, authorize_all, latched, not_connected, after_connect, after_current,
  run_action_execution,
}
use ovrflo.Runtime.Monitor.{play}
use ovrflo.Runtime.Fuel.{fresh_keys, fresh_keys-lt}

module _ {R : Type 0} (keys : List Authorization) where
  -- The next authorization of the draft, if there is one, has a key of the list.
  abbrev pub IsListed : ActionExecutionDraft R → Type 0
  IsListed d = (a : Authorization) → next_authorization d ≡ some a → any (same_key a) keys ≡ true

  -- What is asked of an answer: a rebuilt draft asks for an authorization of the list.
  abbrev pub IsTame : (c : Call R) → Answer c → Type 0
  IsTame (Call.rebuild i) (returned (rebuilt d)) = IsListed d
  IsTame (Call.rebuild i) (returned (not_rebuilt errors)) = Unit
  IsTame (Call.rebuild i) (threw e) = Unit
  IsTame Call.get_identity a = Unit
  IsTame Call.connect a = Unit
  IsTame (Call.authorize b i) a = Unit
  IsTame (Call.simulate r i) a = Unit
  IsTame (Call.submit r) a = Unit
  IsTame (Call.wait_for_receipt h) a = Unit
  IsTame (Call.refresh rs i r) a = Unit
  IsTame (Call.on_phase p) a = Unit

  abbrev pub IsOver : ActionExecutionResult R → Type 0
  IsOver r = r ≢ out_of_fuel

  abbrev pub Ends : Run R → Type 0
  Ends (done r) = IsOver r
  Ends (call c k) = (a : Answer c) → IsTame c a → Ends (k a)

  Ends-play :
      {W : Type 0} (respond : (c : Call R) → W → Answer c × W)
      → ((c : Call R) (w : W) → IsTame c (respond c w).0)
      → (w : W) (run : Run R) → Ends run
      → IsOver (play respond w run).1
  Ends-play respond tame w (done r) h = h
  Ends-play respond tame w (call c k) h =
      Ends-play respond tame (respond c w).1 (k (respond c w).0) (h (respond c w).0 (tame c w))

  either_Ends : (b : Bool) (p q : Run R) → Ends p → Ends q → Ends (if b then p else q)
  either_Ends true p q h g = h
  either_Ends false p q h g = g

  on_same-Ends :
      (c : Awaited Bool) (same other : Run R) (thrown : Failure → Run R)
      → Ends same
      → Ends other
      → ((e : Failure) → Ends (thrown e))
      → Ends (on_same c same other thrown)
  on_same-Ends (threw e) same other thrown h g k = k e
  on_same-Ends (returned true) same other thrown h g k = h
  on_same-Ends (returned false) same other thrown h g k = g

  module _ (same_address : Text → Text → Awaited Bool) (key_before : String → String → Bool)
      (plan : ActionExecutionDraft R) (can_connect : Bool) where
    unless_changed-Ends :
        (i : Option ActionIdentity) (next : Run R)
        → Ends next
        → Ends (unless_changed same_address key_before plan can_connect i next)
    unfolding unless_changed
    unless_changed-Ends i next h =
        on_same-Ends (same_action_identity same_address plan.action.identity i) next
          (done identity_changed) (λ f. done (comparison_threw f)) h (λ e. cc) (λ f e. cc)

    after_identity-Ends :
        (next : Run R) (a : Awaited (Option ActionIdentity))
        → Ends next
        → Ends (after_identity same_address key_before plan can_connect next a)
    unfolding after_identity
    after_identity-Ends next (threw e) h = λ e. cc
    after_identity-Ends next (returned i) h = unless_changed-Ends i next h

    after_refresh-Ends :
        (r : ReceiptResult R) (a : Awaited (Unit {0}))
        → Ends (after_refresh same_address key_before plan can_connect r a)
    unfolding after_refresh
    after_refresh-Ends r (threw e) = λ e. cc
    after_refresh-Ends r (returned _) = λ e. cc

    after_receipt-Ends :
        (d : ActionExecutionDraft R) (hash : Text) (a : Awaited ExecutionReceipt)
        → Ends (after_receipt same_address key_before plan can_connect d hash a)
    unfolding after_receipt
    after_receipt-Ends d hash (threw e) = λ e. cc
    after_receipt-Ends d hash (returned receipt) =
        either_Ends receipt.is_success _ _ (λ _ _ a _. after_refresh-Ends _ a) (λ e. cc)

    after_submit-Ends :
        (d : ActionExecutionDraft R) (a : Awaited Text)
        → Ends (after_submit same_address key_before plan can_connect d a)
    unfolding after_submit
    after_submit-Ends d (threw e) =
        either_Ends _ (done (rejected e)) (done (transport_failed e)) (λ e. cc) (λ e. cc)
    after_submit-Ends d (returned hash) = λ _ _ a _. after_receipt-Ends d hash a

    after_simulate-Ends :
        (d : ActionExecutionDraft R) (a : Awaited R)
        → Ends (after_simulate same_address key_before plan can_connect d a)
    unfolding after_simulate
    after_simulate-Ends d (threw e) = λ e. cc
    after_simulate-Ends d (returned r) =
        λ a _. after_identity-Ends _ a (λ _ _ b _. after_submit-Ends d b)

    after_rebuild-Ends :
        (next : ActionExecutionDraft R → Run R) (a : Awaited (RebuildResult R))
        → IsTame (Call.rebuild plan.action.identity) a
        → ((d : ActionExecutionDraft R) → IsListed d → Ends (next d))
        → Ends (after_rebuild same_address key_before plan can_connect next a)
    unfolding after_rebuild
    after_rebuild-Ends next (threw e) t h = λ e. cc
    after_rebuild-Ends next (returned (not_rebuilt errors)) t h = λ e. cc
    after_rebuild-Ends next (returned (rebuilt d)) t h =
        on_same-Ends
          (same_action_identity same_address plan.action.identity (some d.action.identity)) _
          (done (invalid (snapshot_error ∷ []))) (λ f. done (transport_failed f))
          (either_Ends (material_review_matches same_address key_before plan d) (next d)
            (done (review_needed d)) (h d t) (λ e. cc))
          (λ e. cc) (λ f e. cc)

    after_failed-Ends :
        (e : Failure) (a : Awaited (Option ActionIdentity))
        → Ends (after_failed_authorization same_address key_before plan can_connect e a)
    unfolding after_failed_authorization
    after_failed-Ends e (threw f) = λ e. cc
    after_failed-Ends e (returned i) =
        unless_changed-Ends i _ (either_Ends (is_user_rejection e) _ _ (λ e. cc) (λ e. cc))

    after_authorize-Ends :
        (next : ActionExecutionDraft R → Run R) (a : Awaited ExecutionReceipt)
        → ((d : ActionExecutionDraft R) → IsListed d → Ends (next d))
        → Ends (after_authorize same_address key_before plan can_connect next a)
    unfolding after_authorize
    after_authorize-Ends next (threw e) h = λ a _. after_failed-Ends e a
    after_authorize-Ends next (returned receipt) h =
        either_Ends receipt.is_success _ _
          (λ a _.
            after_identity-Ends _ a (λ _ _ b t.
              after_rebuild-Ends _ b t λ d g c _. after_identity-Ends (next d) c (h d g)))
          (λ e. cc)

    authorize_all-Ends :
        (fuel : ℕ) (ks : List Authorization) (d : ActionExecutionDraft R)
        → IsListed d
        → length (fresh_keys keys ks) < fuel
        → Ends (authorize_all same_address key_before plan can_connect fuel ks d)
    unfolding authorize_all authorize_round sign
    authorize_all-Ends zero ks d h g = absurd (omega arith)
    authorize_all-Ends (suc fuel) ks d h g = elim (Option-cases (next_authorization d)) [
      | inl e ↦ rw e (λ _ _ a _. after_simulate-Ends d a)
      | inr (a, e) ↦ elim (Bool-cases (any (same_key a) ks)) [
        | inl f ↦ rw (e, f) (λ e. cc)
        | inr f ↦
            rw (e, f)
              (λ c _. after_identity-Ends _ c (λ _ _ b _. after_authorize-Ends _ b λ d' t.
                authorize_all-Ends fuel (a ∷ ks) d' t
                  (omega (arith, fresh_keys-lt keys ks a (h a e) f))))
      ]
    ]

    latched-Ends :
        (fuel : ℕ)
        → length keys < fuel
        → Ends (latched same_address key_before plan can_connect fuel)
    unfolding latched
    latched-Ends fuel g = λ _ _ a t. after_rebuild-Ends _ a t λ d h.
        authorize_all-Ends fuel [] d h
          (omega (arith, length-filter-le (λ k. not (any (same_key k) [])) keys))

    rejected-Ends : (e : Failure) → Ends (not_connected same_address key_before plan can_connect e)
    unfolding not_connected
    rejected-Ends e =
        either_Ends _ (done (rejected e)) (done (transport_failed e)) (λ e. cc) (λ e. cc)

    after_connect-Ends :
        (fuel : ℕ) (a : Awaited ActionIdentity)
        → length keys < fuel
        → Ends (after_connect same_address key_before plan can_connect fuel a)
    unfolding after_connect
    after_connect-Ends fuel (threw e) g = rejected-Ends e
    after_connect-Ends fuel (returned i) g = unless_changed-Ends (some i) _ (latched-Ends fuel g)

    after_current-Ends :
        (fuel : ℕ) (a : Awaited (Option ActionIdentity))
        → length keys < fuel
        → Ends (after_current same_address key_before plan can_connect fuel a)
    unfolding after_current
    after_current-Ends fuel (threw e) g = rejected-Ends e
    after_current-Ends fuel (returned (some i)) g =
        unless_changed-Ends (some i) _ (latched-Ends fuel g)
    after_current-Ends fuel (returned none) g =
        either_Ends can_connect _ _ (λ _ _ a _. after_connect-Ends fuel a g)
          (unless_changed-Ends none _ (latched-Ends fuel g))

    -- In a world whose rebuilt drafts ask for authorizations with keys of a list, the run comes to a
    -- result of the code with fuel for one round more than the list has keys.
    pub run_action_execution-IsOver :
        {W : Type 0} (respond : (c : Call R) → W → Answer c × W)
        → ((c : Call R) (w : W) → IsTame c (respond c w).0)
        → (w : W) (fuel : ℕ) → length keys < fuel
        → IsOver
            (play respond w (run_action_execution same_address key_before plan can_connect fuel)).1
    unfolding run_action_execution
    run_action_execution-IsOver respond tame w fuel g =
        Ends-play respond tame w
          (run_action_execution same_address key_before plan can_connect fuel)
          (λ a _. after_current-Ends fuel a g)
