-- ===== src/Runtime/Signing.antt =====
-- `runActionExecution` of web/lib/action-runtime.ts from the simulation to the end: what it calls.
use Prim.Native.String.{String}
use ovrflo.Prelude.{
  ◌≡◌, refl, Bool, true, false, inl, inr, Option, none, some, List, if◌then◌else◌, Bool-cases,
}
use ovrflo.Prelude.Text.{Text}
use ovrflo.Action.{ActionIdentity, Authorization}
use ovrflo.Runtime.{
  Awaited, returned, threw, Failure, ActionExecutionDraft, ExecutionReceipt, ReceiptResult,
  rejected, transport_failed, Call, Run, done, next_authorization, same_action_identity, is_same,
  same_cases, is_user_rejection,
}
use ovrflo.Runtime.Execution.{
  unless_changed, after_identity, after_refresh, after_receipt, after_submit, after_simulate, sign,
}
use ovrflo.Runtime.Monitor.{Known, is_reviewed, learn, Conforms}

module _ (same_address : Text → Text → Awaited Bool) (key_before : String → String → Bool)
    {R : Type 0} (plan : ActionExecutionDraft R) (can_connect : Bool) where
  abbrev pub Fine : Known R → Run R → Type 0
  Fine = Conforms same_address key_before plan

  abbrev pub known :
      Bool → Option (ActionExecutionDraft R) → Option R → List Authorization → Bool → Known R
  known seen draft simulated attempted submitted = record {
    seen = seen;
    draft = draft;
    simulated = simulated;
    attempted = attempted;
    submitted = submitted;
  }

  pub unless_changed-Fine :
      (d : Option (ActionExecutionDraft R)) (r : Option R) (ks : List Authorization)
      (i : Option ActionIdentity) (next : Run R)
      → Fine (known true d r ks false) next
      → Fine
          (known (is_same (same_action_identity same_address plan.action.identity i)) d r ks false)
          (unless_changed same_address key_before plan can_connect i next)
  unfolding unless_changed
  unless_changed-Fine d r ks i next h =
      elim (same_cases (same_action_identity same_address plan.action.identity i)) [
        | inl e ↦ rw e h
        | inr (inl e) ↦ rw e (refl, refl)
        | inr (inr (f, e)) ↦ rw e (refl, refl)
      ]

  pub after_identity-Fine :
      (d : Option (ActionExecutionDraft R)) (r : Option R) (ks : List Authorization) (seen : Bool)
      (next : Run R) (a : Awaited (Option ActionIdentity))
      → Fine (known true d r ks false) next
      → Fine
          (learn same_address key_before plan (known seen d r ks false) Call.get_identity a)
          (after_identity same_address key_before plan can_connect next a)
  unfolding after_identity
  after_identity-Fine d r ks seen next (threw e) h = tt
  after_identity-Fine d r ks seen next (returned i) h = unless_changed-Fine d r ks i next h

  -- The draft was rebuilt, and is the reviewed one.
  abbrev pub Holds : ActionExecutionDraft R → Type 0
  Holds d = is_reviewed same_address key_before plan d ≡ true

  after_refresh-Fine :
      (d : ActionExecutionDraft R) (ks : List Authorization) (r : ReceiptResult R)
      (a : Awaited (Unit {0}))
      → r.draft ≡ d
      → r.receipt.is_success ≡ true
      → Fine
          (known false (some d) none ks true)
          (after_refresh same_address key_before plan can_connect r a)
  unfolding after_refresh
  after_refresh-Fine d ks r (threw e) same h = (refl, cc, h)
  after_refresh-Fine d ks r (returned _) same h = (refl, cc, h)

  after_receipt-Fine :
      (d : ActionExecutionDraft R) (ks : List Authorization) (hash : Text)
      (a : Awaited ExecutionReceipt)
      → Fine
          (known false (some d) none ks true)
          (after_receipt same_address key_before plan can_connect d hash a)
  unfolding after_receipt
  after_receipt-Fine d ks hash (threw e) = tt
  after_receipt-Fine d ks hash (returned receipt) = elim (Bool-cases receipt.is_success) [
    | inl e ↦ simp e (
      tt,
      λ _. (
        (refl, (d, refl, refl), refl, refl),
        λ a.
            after_refresh-Fine d ks
              (record {
                hash = hash;
                receipt = receipt;
                draft = d;
                identity = plan.action.identity;
              })
              a refl e,
      ),
    )
    | inr e ↦ simp e (refl, refl)
  ]

  pub rejected-Fine :
      (m : Known R) (e : Failure)
      → Fine m (if is_user_rejection e then done (rejected e) else done (transport_failed e))
  rejected-Fine m e = elim (Bool-cases (is_user_rejection e)) [ inl h ↦ rw h tt | inr h ↦ rw h tt ]

  after_submit-Fine :
      (d : ActionExecutionDraft R) (ks : List Authorization) (a : Awaited Text)
      → Fine
          (known false (some d) none ks true)
          (after_submit same_address key_before plan can_connect d a)
  unfolding after_submit
  after_submit-Fine d ks (threw e) = rejected-Fine _ e
  after_submit-Fine d ks (returned hash) = (tt, λ _. (refl, after_receipt-Fine d ks hash))

  after_simulate-Fine :
      (d : ActionExecutionDraft R) (ks : List Authorization) (seen : Bool) (a : Awaited R)
      → Fine
          (learn same_address key_before plan
            (known seen (some d) none ks false)
            (Call.simulate d.request plan.action.identity)
            a)
          (after_simulate same_address key_before plan can_connect d a)
  unfolding after_simulate
  after_simulate-Fine d ks seen (threw e) = refl
  after_simulate-Fine d ks seen (returned r) = (
    refl,
    λ a.
        after_identity-Fine (some d) (some r) ks false _ a
          (tt, λ _. ((refl, refl, refl), after_submit-Fine d ks)),
  )

  pub sign-Fine :
      (d : ActionExecutionDraft R) (ks : List Authorization) (seen : Bool)
      → Holds d
      → next_authorization d ≡ none
      → Fine (known seen (some d) none ks false) (sign same_address key_before plan can_connect d)
  unfolding sign
  sign-Fine d ks seen h e =
      (tt, λ _. ((refl, (d, refl, h, e, refl), refl), after_simulate-Fine d ks seen))
