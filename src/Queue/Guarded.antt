-- ===== src/Queue/Guarded.antt =====
-- web/hooks/useTxQueue.ts: what stands before every request of the queue to rebuild, execute or
-- refresh.
use ovrflo.Prelude.{
  ℕ, suc, ◌≡◌, ◌==◌, refl, inl, inr, ◌&&◌, Option, none, some, length, ltb, all, Bool-cases,
}
use ovrflo.Action.{ActionIdentity, ActionError}
use ovrflo.Runtime.{Awaited, returned, threw, ActionExecutionResult}
use ovrflo.Runtime
use ovrflo.ClaimAll.{QueuedTx}
use ovrflo.Queue.{
  QueueInvariant, holds, broken, QueueState, skipped, confirmed, identity_check, also,
  invariant_now, update_row,
}
use ovrflo.Queue.Process.{
  RowBuild, row_plan, row_changed, row_gone, Task, rebuilding, confirming, retrying, next_open,
  prepare_row, process_open, process_at, confirm_row, is_gone_code, after_row_rebuild,
  after_row_confirm,
}

module _ (R Plan : Type 0) where
  -- The wallet's identity is the owner of the queue, and the invariants hold at this moment.
  abbrev pub MayAsk : QueueInvariant → QueueState R → Option ActionIdentity → Type 0
  MayAsk answer s identity = (answer ≡ holds) × (identity_check s.owner identity ≡ holds)

  -- If something is asked for, it may be; a rebuild is for the identity of the wallet, and a plan is
  -- executed only right after it was rebuilt.
  abbrev pub IsGuarded :
      QueueInvariant → QueueState R → Option Plan → QueueState R × Option (Task Plan) → Type 0
  IsGuarded answer s given (t, none) = Unit
  IsGuarded answer s given (t, some (rebuilding i run tx identity)) =
      (s.identity ≡ some identity) × MayAsk answer s s.identity
  IsGuarded answer s given (t, some (confirming i run plan)) =
      (given ≡ some plan) × MayAsk answer s s.identity
  IsGuarded answer s given (t, some (retrying i run)) = MayAsk answer s s.identity

  may_ask :
      (answer check : QueueInvariant)
      → also check answer ≡ holds
      → (answer ≡ holds) × (check ≡ holds)
  may_ask answer holds h = (h, refl)
  may_ask answer (broken reason) h = absurd (cc)

  prepare_row-IsGuarded :
      (answer : QueueInvariant) (given : Option Plan) (i run : ℕ) (tx : QueuedTx)
      (identity : Option ActionIdentity) (s : QueueState R)
      → s.identity ≡ identity
      → MayAsk answer s s.identity
      → IsGuarded answer s given (prepare_row i run tx identity s)
  prepare_row-IsGuarded answer given i run tx none s e may = tt
  prepare_row-IsGuarded answer given i run tx (some identity) s e may = (e, may)

  process_open-IsGuarded :
      (answer check : QueueInvariant) (given : Option Plan) (run : ℕ)
      (found : Option (ℕ × QueuedTx)) (s : QueueState R)
      → invariant_now answer s ≡ check
      → IsGuarded answer s given (process_open check run found s)
  unfolding invariant_now
  process_open-IsGuarded answer check given run none s h = tt
  process_open-IsGuarded answer (broken reason) given run (some (i, tx)) s h = tt
  process_open-IsGuarded answer holds given run (some (i, tx)) s h =
      prepare_row-IsGuarded answer given i run tx s.identity s refl
        (may_ask answer (identity_check s.owner s.identity) h)

  process_at-IsGuarded :
      (answer : QueueInvariant) (given : Option Plan) (index run : ℕ) (s : QueueState R)
      → IsGuarded answer s given (process_at answer index run s)
  unfolding process_at
  process_at-IsGuarded answer given index run s = elim (Bool-cases (s.generation == run)) [
    | inl e ↦ simp e (
        process_open-IsGuarded answer (invariant_now answer s) given run (next_open s.rows index) s
          refl)
    | inr e ↦ simp e tt
  ]

  -- The plan that a rebuild returned.
  abbrev pub rebuilt_plan : Awaited (RowBuild Plan) → Option Plan
  rebuilt_plan (threw e) = none
  rebuilt_plan (returned (row_plan plan)) = some plan
  rebuilt_plan (returned (row_changed tx)) = none
  rebuilt_plan (returned row_gone) = none

  confirm_row-IsGuarded :
      (answer check : QueueInvariant) (i run : ℕ) (plan : Plan) (s : QueueState R)
      → invariant_now answer s ≡ check
      → IsGuarded answer s (some plan) (confirm_row check i run plan s)
  unfolding invariant_now
  confirm_row-IsGuarded answer (broken reason) i run plan s h = tt
  confirm_row-IsGuarded answer holds i run plan s h =
      (refl, may_ask answer (identity_check s.owner s.identity) h)

  -- What a run asks for after a rebuild: it executes only the plan that was just rebuilt, it
  -- rebuilds another row only for the identity of the wallet, and it does either only if the
  -- invariants hold at that moment and that identity is the one that the queue was started for.
  pub after_row_rebuild-IsGuarded :
      (answer : QueueInvariant) (i run : ℕ) (a : Awaited (RowBuild Plan)) (s : QueueState R)
      → IsGuarded answer s (rebuilt_plan a) (after_row_rebuild answer i run a s)
  unfolding after_row_rebuild
  after_row_rebuild-IsGuarded answer i run (threw e) s = tt
  after_row_rebuild-IsGuarded answer i run (returned row_gone) s =
      process_at-IsGuarded answer none (suc i) run (update_row i skipped none s)
  after_row_rebuild-IsGuarded answer i run (returned (row_changed tx)) s = tt
  after_row_rebuild-IsGuarded answer i run (returned (row_plan plan)) s =
      confirm_row-IsGuarded answer (invariant_now answer s) i run plan s refl

  -- After an execution, a run rebuilds another row only for the identity of the wallet, and only
  -- if the invariants hold at that moment and that identity is the one that the queue was
  -- started for.
  pub after_row_confirm-IsGuarded :
      (answer : QueueInvariant) (i run : ℕ) (a : Awaited (ActionExecutionResult R))
      (s : QueueState R)
      → IsGuarded answer s none (after_row_confirm answer i run a s)
  unfolding after_row_confirm
  after_row_confirm-IsGuarded answer i run (threw e) s = tt
  after_row_confirm-IsGuarded answer i run (returned (Runtime.success r)) s =
      process_at-IsGuarded answer none (suc i) run (update_row i confirmed none s)
  after_row_confirm-IsGuarded answer i run (returned (Runtime.invalid errors)) s =
      elim (Bool-cases
        (ltb 0 (length errors) && all (λ (e : ActionError). is_gone_code e.code) errors)) [
          | inl e ↦
              simp e (process_at-IsGuarded answer none (suc i) run (update_row i skipped none s))
          | inr e ↦ simp e tt
        ]
  after_row_confirm-IsGuarded answer i run (returned _) s = tt
