-- ===== src/Queue/Machine.antt =====
-- The queue of web/hooks/useTxQueue.ts as a machine: its state, the tasks it waits for, and what can
-- happen to it, in any order. A task of an earlier generation is answered to no effect.
use ovrflo.Prelude.{ℕ, zero, suc, ◌==◌, Option, none, some, List, [], ◌∷◌, get_elem?, if◌then◌else◌}
use ovrflo.Action.{ActionIdentity}
use ovrflo.Runtime.{Awaited, ActionExecutionResult}
use ovrflo.ClaimAll.{QueuedTx}
use ovrflo.Queue.{QueueInvariant, QueueState}
use ovrflo.Queue.Process.{
  RowBuild, Task, rebuilding, confirming, retrying, after_row_rebuild, after_row_confirm,
}
use ovrflo.Queue.Commands.{start, resume, accept_review, after_refresh_retry, unmount}

-- A render with an identity, a command, or the answer to the task at a place, each with what
-- `invariants` answers then.
pub data Event (R Plan : Type 0) : Type 0 where
  rendered : Option ActionIdentity → Event R Plan
  unmounted : Event R Plan
  started resumed review_accepted : QueueInvariant → List QueuedTx → Event R Plan
  row_rebuilt : QueueInvariant → ℕ → Awaited (RowBuild Plan) → Event R Plan
  row_confirmed : QueueInvariant → ℕ → Awaited (ActionExecutionResult R) → Event R Plan
  refresh_retried : QueueInvariant → ℕ → Awaited (Option (ActionExecutionResult R)) → Event R Plan

pub record Machine (R Plan : Type 0) : Type 0 where
  pub queue : QueueState R
  pub waiting : List (Task Plan)

abbrev pub without {ℓ} : {A : Type ℓ} → ℕ → List A → List A
without n [] = []
without zero (x ∷ xs) = xs
without (suc n) (x ∷ xs) = x ∷ without n xs

abbrev pub task_run : {Plan : Type 0} → Task Plan → ℕ
task_run (rebuilding i run tx identity) = run
task_run (confirming i run plan) = run
task_run (retrying i run) = run

module _ {R Plan : Type 0} where
  abbrev pub then_wait : QueueState R × Option (Task Plan) → List (Task Plan) → Machine R Plan
  then_wait (s, none) tasks = record { queue = s; waiting = tasks }
  then_wait (s, some t) tasks = record { queue = s; waiting = t ∷ tasks }

  -- `if (generation.current !== run) return;` before the rest.
  abbrev pub if_current :
      ℕ → QueueState R → QueueState R × Option (Task Plan) → QueueState R × Option (Task Plan)
  if_current run s rest = if s.generation == run then rest else (s, none)

  unfoldable pub rebuild_answer :
      QueueInvariant
      → Awaited (RowBuild Plan)
      → ℕ
      → Option (Task Plan)
      → Machine R Plan
      → Machine R Plan
  rebuild_answer answer a n (some (rebuilding i run tx identity)) m =
      then_wait (if_current run m.queue (after_row_rebuild answer i run a m.queue))
        (without n m.waiting)
  rebuild_answer answer a n _ m = m

  unfoldable pub confirm_answer :
      QueueInvariant
      → Awaited (ActionExecutionResult R)
      → ℕ
      → Option (Task Plan)
      → Machine R Plan
      → Machine R Plan
  confirm_answer answer a n (some (confirming i run plan)) m =
      then_wait (if_current run m.queue (after_row_confirm answer i run a m.queue))
        (without n m.waiting)
  confirm_answer answer a n _ m = m

  unfoldable pub retry_answer :
      QueueInvariant
      → Awaited (Option (ActionExecutionResult R))
      → ℕ
      → Option (Task Plan)
      → Machine R Plan
      → Machine R Plan
  retry_answer answer a n (some (retrying i run)) m =
      then_wait (if_current run m.queue (after_refresh_retry answer i run a m.queue))
        (without n m.waiting)
  retry_answer answer a n _ m = m

  unfoldable pub step : Event R Plan → Machine R Plan → Machine R Plan
  step (rendered identity) m = record {
    queue = record (m.queue) { identity = identity };
    waiting = m.waiting;
  }
  step unmounted m = record { queue = unmount m.queue; waiting = m.waiting }
  step (started answer plan) m = then_wait (start answer plan m.queue) m.waiting
  step (resumed answer plan) m = then_wait (resume answer plan m.queue) m.waiting
  step (review_accepted answer plan) m = then_wait (accept_review answer plan m.queue) m.waiting
  step (row_rebuilt answer n a) m = rebuild_answer answer a n (get_elem? m.waiting n) m
  step (row_confirmed answer n a) m = confirm_answer answer a n (get_elem? m.waiting n) m
  step (refresh_retried answer n a) m = retry_answer answer a n (get_elem? m.waiting n) m

  -- The machine after a list of events, the first first.
  unfoldable pub run_events : List (Event R Plan) → Machine R Plan → Machine R Plan
  run_events [] m = m
  run_events (e ∷ es) m = run_events es (step e m)
