-- ===== src/Queue.antt =====
-- web/hooks/useTxQueue.ts: the queue that claims a plan's transactions one by one. The hook's
-- references and its React state are the fields of one record. `R` is the request that a simulation
-- returns, and `Plan` is what a rebuild hands to the executor.
pub mod Process
pub mod Commands
pub mod Machine
pub mod Sound
pub mod Reached
pub mod History
pub mod Guarded
pub mod Succeeding
use ovrflo.Prelude.{
  ℕ, zero, suc, ◌==◌, Bool, true, false, not, ◌&&◌, ◌||◌, Option, none, some, List, [], ◌∷◌, map,
  any, all, filter, length, if◌then◌else◌, ltb,
}
use ovrflo.Prelude.Int.{ℤ, eqb_ℤ}
use ovrflo.Prelude.Text.{Text, lower, text_eq}
use ovrflo.Action.{ActionIdentity}
use ovrflo.Runtime.{Failure, ActionExecutionResult}
use ovrflo.ClaimAll.{QueuedTx}

pub data QueuePauseReason : Type 0 where
  completeness agreement hydration account chain : QueuePauseReason

pub data QueueInvariant : Type 0 where
  holds : QueueInvariant
  broken : QueuePauseReason → QueueInvariant

pub data QueueRowStatus : Type 0 where
  pending preparing confirmed skipped needs_review paused refresh_failed failed : QueueRowStatus

pub record QueueRow : Type 0 where
  pub tx : QueuedTx
  pub status : QueueRowStatus
  pub replacement : Option QueuedTx

-- What `setError` is given: what was thrown, the error of a result, or a result without one.
pub data QueueError (R : Type 0) : Type 0 where
  thrown_error : Failure → QueueError R
  result_error : Option Failure → QueueError R
  whole_result : ActionExecutionResult R → QueueError R

pub data QueueOutcome : Type 0 where
  idle in_progress complete_success complete_with_skips partial_completion : QueueOutcome

-- `identity` is `identityRef`, which follows the wallet; `owner` is `queueOwner`.
pub record QueueState (R : Type 0) : Type 0 where
  pub identity : Option ActionIdentity
  pub owner : Option ActionIdentity
  pub generation : ℕ
  pub rows : List QueueRow
  pub refresh_failure : Option ℕ
  pub running : Bool
  pub is_paused : Bool
  pub pause_reason : Option QueuePauseReason
  pub error : Option (QueueError R)

abbrev pub is_confirmed : QueueRowStatus → Bool
is_confirmed confirmed = true
is_confirmed pending = false
is_confirmed preparing = false
is_confirmed skipped = false
is_confirmed needs_review = false
is_confirmed paused = false
is_confirmed refresh_failed = false
is_confirmed failed = false

-- `status === "confirmed" || status === "skipped"`
abbrev pub is_settled : QueueRowStatus → Bool
is_settled skipped = true
is_settled confirmed = true
is_settled pending = false
is_settled preparing = false
is_settled needs_review = false
is_settled paused = false
is_settled refresh_failed = false
is_settled failed = false

-- The statuses of rows that leave a queue partly complete.
abbrev pub is_stopped : QueueRowStatus → Bool
is_stopped paused = true
is_stopped needs_review = true
is_stopped refresh_failed = true
is_stopped failed = true
is_stopped pending = false
is_stopped preparing = false
is_stopped confirmed = false
is_stopped skipped = false

abbrev pub or_kept : Option QueuedTx → Option QueuedTx → Option QueuedTx
or_kept none kept = kept
or_kept (some tx) kept = some tx

-- A row that is confirmed keeps its status.
unfoldable pub set_status : QueueRowStatus → Option QueuedTx → QueueRow → QueueRow
set_status status replacement row =
    if is_confirmed row.status
    then row
    else record { tx = row.tx; status = status; replacement = or_kept replacement row.replacement }

unfoldable pub update_rows : ℕ → QueueRowStatus → Option QueuedTx → List QueueRow → List QueueRow
update_rows i status replacement [] = []
update_rows zero status replacement (r ∷ rs) = set_status status replacement r ∷ rs
update_rows (suc i) status replacement (r ∷ rs) = r ∷ update_rows i status replacement rs

-- The identity that a queue may act for now, where that is its owner.
abbrev pub identity_check : Option ActionIdentity → Option ActionIdentity → QueueInvariant
identity_check none current = broken account
identity_check (some owner) none = broken account
identity_check (some owner) (some current) =
    if not (owner.chain_id == current.chain_id)
    then broken chain
    else if not (text_eq (lower owner.account) (lower current.account))
    then broken account
    else holds

abbrev pub also : QueueInvariant → QueueInvariant → QueueInvariant
also (broken reason) answer = broken reason
also holds answer = answer

module _ {R : Type 0} where
  -- `updateRow`
  abbrev pub update_row : ℕ → QueueRowStatus → Option QueuedTx → QueueState R → QueueState R
  update_row i status replacement s = record s { rows = update_rows i status replacement s.rows }

  -- `pauseAt`
  unfoldable pub pause_at : ℕ → QueuePauseReason → QueueState R → QueueState R
  pause_at i reason s = record s {
    rows = update_rows i paused none s.rows;
    pause_reason = some reason;
    is_paused = true;
    running = false;
  }

  -- `invariantNow`, with what `invariants` answers.
  unfoldable pub invariant_now : QueueInvariant → QueueState R → QueueInvariant
  invariant_now answer s = also (identity_check s.owner s.identity) answer

  -- `outcome`
  unfoldable pub queue_outcome : QueueState R → QueueOutcome
  queue_outcome s =
      if length s.rows == 0
      then idle
      else if all (λ (r : QueueRow). is_settled r.status) s.rows
      then (if any (λ (r : QueueRow). is_settled r.status && not (is_confirmed r.status)) s.rows
          then complete_with_skips
          else complete_success)
      else if any (λ (r : QueueRow). is_confirmed r.status) s.rows
          && any (λ (r : QueueRow). is_stopped r.status) s.rows
      then partial_completion
      else in_progress
