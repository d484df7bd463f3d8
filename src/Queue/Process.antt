-- ===== src/Queue/Process.antt =====
-- `processAt` of web/hooks/useTxQueue.ts, as one function for each stretch between two awaits. What
-- it waits for is a task, and `answer` is what `invariants` says when it is asked.
use ovrflo.Prelude.{
  ℕ, suc, ◌==◌, Bool, true, false, ◌&&◌, Option, none, some, List, [], ◌∷◌, all, drop, length, ltb,
  if◌then◌else◌,
}
use ovrflo.Action.{
  ActionIdentity, ActionError, ActionErrorCode, nothing_claimable, stream_not_owned,
}
use ovrflo.Runtime.{
  Failure, Awaited, returned, threw, ActionExecutionResult, success, review_needed, invalid,
  identity_changed, authorization_failed, simulation_failed, rejected, transport_failed, reverted,
  out_of_fuel,
}
use ovrflo.Runtime
use ovrflo.ClaimAll.{QueuedTx}
use ovrflo.Queue.{
  QueueInvariant, holds, broken, account, chain, QueueRow, QueueRowStatus, QueueState, QueueError,
  thrown_error, result_error, whole_result, preparing, confirmed, skipped, needs_review,
  refresh_failed, failed, is_settled, update_row, pause_at, invariant_now,
}

-- `ClaimAllRowBuild`
pub data RowBuild (Plan : Type 0) : Type 0 where
  row_plan : Plan → RowBuild Plan
  row_changed : QueuedTx → RowBuild Plan
  row_gone : RowBuild Plan

-- What a run waits for, with the index of its row and the generation that it belongs to.
pub data Task (Plan : Type 0) : Type 0 where
  rebuilding : ℕ → ℕ → QueuedTx → ActionIdentity → Task Plan
  confirming : ℕ → ℕ → Plan → Task Plan
  retrying : ℕ → ℕ → Task Plan

-- The first row that is not settled, from an index on.
unfoldable pub scan : ℕ → List QueueRow → Option (ℕ × QueuedTx)
scan i [] = none
scan i (r ∷ rs) = let rest = scan (suc i) rs in if is_settled r.status then rest else some (i, r.tx)

abbrev pub next_open : List QueueRow → ℕ → Option (ℕ × QueuedTx)
next_open rows index = scan index (drop index rows)

-- The errors that say that there is nothing left to claim.
abbrev pub is_gone_code : ActionErrorCode → Bool
is_gone_code nothing_claimable = true
is_gone_code stream_not_owned = true
is_gone_code _ = false

abbrev pub chain_of : Option ActionIdentity → Option ℕ
chain_of none = none
chain_of (some i) = some i.chain_id

abbrev pub same_chain : Option ℕ → Option ℕ → Bool
same_chain none none = true
same_chain none (some b) = false
same_chain (some a) none = false
same_chain (some a) (some b) = a == b

-- `"error" in result ? result.error : result`, of a result that is not handled before.
abbrev pub error_of : {R : Type 0} → ActionExecutionResult R → QueueError R
error_of (authorization_failed e) = result_error e
error_of (simulation_failed e) = result_error (some e)
error_of (rejected e) = result_error (some e)
error_of (transport_failed e) = result_error (some e)
error_of other = whole_result other

-- `setError(...)`, a status of the row, and `setRunning(false)`.
unfoldable pub stop_at :
    {R : Type 0} → ℕ → QueueRowStatus → Option (QueueError R) → QueueState R → QueueState R
stop_at i status e s = update_row i status none (record s { error = e; running = false })

module _ {R Plan : Type 0} where
  -- The rebuild of a row for the identity of the wallet.
  abbrev pub prepare_row :
      ℕ → ℕ → QueuedTx → Option ActionIdentity → QueueState R → QueueState R × Option (Task Plan)
  prepare_row i run tx none s = (pause_at i account s, none)
  prepare_row i run tx (some identity) s =
      (update_row i preparing none s, some (rebuilding i run tx identity))

  abbrev pub process_open :
      QueueInvariant → ℕ → Option (ℕ × QueuedTx) → QueueState R → QueueState R × Option (Task Plan)
  process_open check run none s = (record s { running = false }, none)
  process_open (broken reason) run (some (i, tx)) s = (pause_at i reason s, none)
  process_open holds run (some (i, tx)) s = prepare_row i run tx s.identity s

  -- `processAt` up to its first await; settled rows are passed over.
  unfoldable pub process_at :
      QueueInvariant → ℕ → ℕ → QueueState R → QueueState R × Option (Task Plan)
  process_at answer index run s =
      if s.generation == run
      then process_open (invariant_now answer s) run (next_open s.rows index) s
      else (s, none)

  -- The check between the rebuild and the executor.
  abbrev pub confirm_row :
      QueueInvariant → ℕ → ℕ → Plan → QueueState R → QueueState R × Option (Task Plan)
  confirm_row (broken reason) i run plan s = (pause_at i reason s, none)
  confirm_row holds i run plan s = (s, some (confirming i run plan))

  -- After `rebuild`, for a run that is not over.
  unfoldable pub after_row_rebuild :
      QueueInvariant
      → ℕ
      → ℕ
      → Awaited (RowBuild Plan)
      → QueueState R
      → QueueState R × Option (Task Plan)
  after_row_rebuild answer i run (threw e) s = (stop_at i failed (some (thrown_error e)) s, none)
  after_row_rebuild answer i run (returned row_gone) s =
      process_at answer (suc i) run (update_row i skipped none s)
  after_row_rebuild answer i run (returned (row_changed tx)) s =
      (update_row i needs_review (some tx) (record s { running = false }), none)
  after_row_rebuild answer i run (returned (row_plan plan)) s =
      confirm_row (invariant_now answer s) i run plan s

  -- After `executor.confirm`, for a run that is not over.
  unfoldable pub after_row_confirm :
      QueueInvariant
      → ℕ
      → ℕ
      → Awaited (ActionExecutionResult R)
      → QueueState R
      → QueueState R × Option (Task Plan)
  after_row_confirm answer i run (threw e) s = (stop_at i failed (some (thrown_error e)) s, none)
  after_row_confirm answer i run (returned (success r)) s =
      process_at answer (suc i) run (update_row i confirmed none s)
  after_row_confirm answer i run (returned (Runtime.refresh_failed r e)) s = (
    stop_at i refresh_failed (some (result_error (some e))) (record s { refresh_failure = some i }),
    none,
  )
  after_row_confirm answer i run (returned (review_needed d)) s =
      (update_row i needs_review none (record s { running = false }), none)
  after_row_confirm answer i run (returned identity_changed) s = (
    pause_at i (if same_chain (chain_of s.owner) (chain_of s.identity) then account else chain) s,
    none,
  )
  after_row_confirm answer i run (returned (invalid errors)) s =
      if ltb 0 (length errors) && all (λ (e : ActionError). is_gone_code e.code) errors
      then process_at answer (suc i) run (update_row i skipped none s)
      else (stop_at i failed (some (whole_result (invalid errors))) s, none)
  after_row_confirm answer i run (returned other) s =
      (stop_at i failed (some (error_of other)) s, none)
