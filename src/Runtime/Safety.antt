-- ===== src/Runtime/Safety.antt =====
-- `runActionExecution` of web/lib/action-runtime.ts makes only calls that are allowed.
use Prim.Native.String.{String}
use ovrflo.Prelude.{
  ℕ, zero, suc, ◌≡◌, refl, Bool, true, false, inl, inr, Option, none, some, List, [], ◌∷◌,
  if◌then◌else◌, any, Bool-cases, Option-cases,
}
use ovrflo.Prelude.Text.{Text}
use ovrflo.Action.{ActionIdentity, Authorization}
use ovrflo.Runtime.{
  Awaited, returned, threw, Failure, ActionExecutionDraft, RebuildResult, rebuilt, not_rebuilt,
  ExecutionReceipt, Call, Answer, Run, next_authorization, same_key, same_action_identity,
  same_cases, is_user_rejection,
}
use ovrflo.Runtime.Execution.{
  material_review_matches, after_rebuild, after_failed_authorization, after_authorize,
  authorize_round, authorize_all, latched, not_connected, after_connect, after_current,
  run_action_execution,
}
use ovrflo.Runtime.Signing.{
  Fine, known, Holds, unless_changed-Fine, after_identity-Fine, rejected-Fine, sign-Fine,
}
use ovrflo.Runtime.Monitor.{Known, nothing_known, learn, IsSafe, play, Conforms-IsSafe}

module _ (same_address : Text → Text → Awaited Bool) (key_before : String → String → Bool)
    {R : Type 0} (plan : ActionExecutionDraft R) (can_connect : Bool) where
  abbrev Runs : Known R → Run R → Type 0
  Runs = Fine same_address key_before plan can_connect

  abbrev IsReviewed : ActionExecutionDraft R → Type 0
  IsReviewed = Holds same_address key_before plan can_connect

  after_rebuild-Fine :
      (m : Known R) (next : ActionExecutionDraft R → Run R) (a : Awaited (RebuildResult R))
      → m.submitted ≡ false
      → ((d : ActionExecutionDraft R)
          → IsReviewed d
          → Runs
              (known same_address key_before plan can_connect false
                (some d)
                none
                m.attempted
                m.submitted)
              (next d))
      → Runs
          (learn same_address key_before plan m (Call.rebuild plan.action.identity) a)
          (after_rebuild same_address key_before plan can_connect next a)
  unfolding after_rebuild
  after_rebuild-Fine m next (threw e) s h = tt
  after_rebuild-Fine m next (returned (not_rebuilt errors)) s h = s
  after_rebuild-Fine m next (returned (rebuilt d)) s h =
      elim (same_cases
        (same_action_identity same_address plan.action.identity (some d.action.identity))) [
          | inl e ↦ elim (Bool-cases (material_review_matches same_address key_before plan d)) [
            | inl f ↦ rw (e, f) (h d (rw (e, f) refl))
            | inr f ↦ rw (e, f) (s, rw (e, f) refl)
          ]
          | inr (inl e) ↦ rw e s
          | inr (inr (f, e)) ↦ rw e tt
        ]

  after_failed_authorization-Fine :
      (ks : List Authorization) (e : Failure) (a : Awaited (Option ActionIdentity))
      → Runs
          (learn same_address key_before plan
            (known same_address key_before plan can_connect false none none ks false)
            Call.get_identity
            a)
          (after_failed_authorization same_address key_before plan can_connect e a)
  unfolding after_failed_authorization
  after_failed_authorization-Fine ks e (threw f) = tt
  after_failed_authorization-Fine ks e (returned i) =
      (unless_changed-Fine same_address key_before plan can_connect) none none ks i _
        (elim (Bool-cases (is_user_rejection e)) [ inl h ↦ rw h tt | inr h ↦ rw h refl ])

  after_authorize-Fine :
      (ks : List Authorization) (next : ActionExecutionDraft R → Run R)
      (a : Awaited ExecutionReceipt)
      → ((d : ActionExecutionDraft R)
          → IsReviewed d
          → Runs
              (known same_address key_before plan can_connect true (some d) none ks false)
              (next d))
      → Runs
          (known same_address key_before plan can_connect false none none ks false)
          (after_authorize same_address key_before plan can_connect next a)
  unfolding after_authorize
  after_authorize-Fine ks next (threw e) h = (refl, after_failed_authorization-Fine ks e)
  after_authorize-Fine ks next (returned receipt) h = elim (Bool-cases receipt.is_success) [
    | inl e ↦ simp e (
      refl,
      λ a. (after_identity-Fine same_address key_before plan can_connect) none none ks false _ a (
        tt,
        λ _. (
          (refl, refl),
          λ b.
              after_rebuild-Fine
                (known same_address key_before plan can_connect true none none ks false) _ b refl
                λ d g. (
                  refl,
                  λ c.
                      (after_identity-Fine same_address key_before plan can_connect) (some d) none
                        ks false (next d) c (h d g),
                ),
        ),
      ),
    )
    | inr e ↦ simp e refl
  ]

  authorize_all-Fine :
      (fuel : ℕ) (ks : List Authorization) (d : ActionExecutionDraft R) (seen : Bool)
      → IsReviewed d
      → Runs
          (known same_address key_before plan can_connect seen (some d) none ks false)
          (authorize_all same_address key_before plan can_connect fuel ks d)
  unfolding authorize_all authorize_round
  authorize_all-Fine zero ks d seen h = refl
  authorize_all-Fine (suc fuel) ks d seen h = elim (Option-cases (next_authorization d)) [
    | inl e ↦ rw e ((sign-Fine same_address key_before plan can_connect) d ks seen h e)
    | inr (a, e) ↦ elim (Bool-cases (any (same_key a) ks)) [
      | inl f ↦ rw (e, f) refl
      | inr f ↦
          rw (e, f)
            (
              refl,
              λ c.
                  (after_identity-Fine same_address key_before plan can_connect) (some d) none ks
                    seen _ c
                    (
                      tt,
                      λ _. (
                        (refl, refl, (d, refl, h, e), f, refl),
                        λ b.
                            after_authorize-Fine (a ∷ ks) _ b
                              λ d' g. authorize_all-Fine fuel (a ∷ ks) d' true g,
                      ),
                    ),
            )
    ]
  ]

  latched-Fine :
      (fuel : ℕ) (seen : Bool)
      → Runs
          (known same_address key_before plan can_connect seen none none [] false)
          (latched same_address key_before plan can_connect fuel)
  unfolding latched
  latched-Fine fuel seen = (
    tt,
    λ _. (
      (refl, refl),
      λ a.
          after_rebuild-Fine
            (known same_address key_before plan can_connect seen none none [] false) _ a refl
            λ d h. authorize_all-Fine fuel [] d false h,
    ),
  )

  after_connect-Fine :
      (fuel : ℕ) (seen : Bool) (a : Awaited ActionIdentity)
      → Runs
          (learn same_address key_before plan
            (known same_address key_before plan can_connect seen none none [] false)
            Call.connect
            a)
          (after_connect same_address key_before plan can_connect fuel a)
  unfolding after_connect not_connected
  after_connect-Fine fuel seen (threw e) =
      (rejected-Fine same_address key_before plan can_connect) _ e
  after_connect-Fine fuel seen (returned i) =
      (unless_changed-Fine same_address key_before plan can_connect) none none [] (some i) _
        (latched-Fine fuel true)

  either_Fine :
      (b : Bool) (m : Known R) (p q : Run R) → Runs m p → Runs m q → Runs m (if b then p else q)
  either_Fine true m p q h g = h
  either_Fine false m p q h g = g

  after_current-Fine :
      (fuel : ℕ) (a : Awaited (Option ActionIdentity))
      → Runs
          (learn same_address key_before plan nothing_known Call.get_identity a)
          (after_current same_address key_before plan can_connect fuel a)
  unfolding after_current not_connected
  after_current-Fine fuel (threw e) = (rejected-Fine same_address key_before plan can_connect) _ e
  after_current-Fine fuel (returned (some i)) =
      (unless_changed-Fine same_address key_before plan can_connect) none none [] (some i) _
        (latched-Fine fuel true)
  after_current-Fine fuel (returned none) =
      either_Fine can_connect _ _ _ (tt, λ _. (refl, after_connect-Fine fuel false))
        ((unless_changed-Fine same_address key_before plan can_connect) none none [] none _
          (latched-Fine fuel true))

  -- In every world, whatever it answers, the run makes only calls that are allowed by what was
  -- answered before, and its result fits: a wallet is asked only for the next authorization of the
  -- reviewed draft, once for each key, and to sign at most one request, the one that the simulation
  -- of the reviewed draft returned, each right after the accepted identity was seen; and nothing
  -- was submitted if the result is that the identity changed, that the comparison of accounts threw,
  -- that a review is needed, that the action is invalid, or that an authorization or the simulation
  -- failed.
  pub run_action_execution-IsSafe :
      {W : Type 0} (respond : (c : Call R) → W → Answer c × W) (w : W) (fuel : ℕ)
      → IsSafe same_address key_before plan nothing_known
          (play respond w (run_action_execution same_address key_before plan can_connect fuel)).0
          (play respond w (run_action_execution same_address key_before plan can_connect fuel)).1
  unfolding run_action_execution
  run_action_execution-IsSafe respond w fuel =
      Conforms-IsSafe same_address key_before plan respond w nothing_known
        (run_action_execution same_address key_before plan can_connect fuel)
        (refl, after_current-Fine fuel)
