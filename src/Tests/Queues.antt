-- ===== src/Tests/Queues.antt =====
-- The theorems about web/hooks/useTxQueue.ts at concrete inputs.
use ovrflo.Prelude.{ℕ, refl, true, false, Option, some, none, List, [], ◌∷◌, All, arith}
use ovrflo.Prelude.Int.{pos}
use ovrflo.Action.{ActionIdentity, ReadyAction, FinalCall, single, claim_share}
use ovrflo.Action.Value.{no_values}
use ovrflo.Action.Repay.{lending_call}
use ovrflo.Runtime.{returned, ReceiptResult}
use ovrflo.ClaimAll.{QueuedTx, pool_claims, stream_claim}
use ovrflo.Queue.{QueueState, QueueRow, holds, confirmed, paused}
use ovrflo.Queue.Process.{row_plan, row_gone, after_row_rebuild}
use ovrflo.Queue.Commands.{keys_of, settled_rows, new_row, resumed_rows, accepted_rows}
use ovrflo.Queue.Machine.{Event, started, resumed, rendered, row_rebuilt, Machine, run_events}
use ovrflo.Queue.Reached.{IsSound, run_events-IsSound}
use ovrflo.Queue.History.{IsOpenRow, resumed_rows-IsOpenRow}
use ovrflo.Queue.Guarded.{IsGuarded, rebuilt_plan, after_row_rebuild-IsGuarded}
use ovrflo.Queue.Succeeding.{IsFinished, successes, started-IsFinished}

abbrev dave : ActionIdentity
dave = record { account = b'd' ∷ []; chain_id = 1 }

abbrev idle_queue : QueueState (Option ℕ)
idle_queue = record {
  identity = some dave;
  owner = some dave;
  generation = 0;
  rows = [];
  refresh_failure = none;
  running = false;
  is_paused = false;
  pause_reason = none;
  error = none;
}

abbrev pool_tx : QueuedTx
pool_tx =
    pool_claims (b'l' ∷ [])
      (record { loan_id = pos 1; claimable = pos 3 }
        ∷ record { loan_id = pos 2; claimable = pos 4 }
        ∷ [])
      (b'a' ∷ [])

abbrev stream_tx : QueuedTx
stream_tx = stream_claim (pos 9) (pos 5) (b'a' ∷ [])

abbrev idle_machine : Machine (Option ℕ) ℕ
idle_machine = record { queue = idle_queue; waiting = [] }

-- The stream is gone when its row is rebuilt, and the identity changes before the pool is executed.
abbrev events : List (Event (Option ℕ) ℕ)
events =
    started holds (stream_tx ∷ pool_tx ∷ [])
    ∷ row_rebuilt holds 0 (returned row_gone)
    ∷ rendered none
    ∷ row_rebuilt holds 0 (returned (row_plan 7))
    ∷ resumed holds (pool_tx ∷ [])
    ∷ []

run_events-IsSound_example : IsSound (Option ℕ) ℕ (run_events events idle_machine)
run_events-IsSound_example = run_events-IsSound (Option ℕ) ℕ events idle_machine (tt, omega arith)

abbrev rows : List QueueRow
rows = new_row confirmed none stream_tx ∷ new_row paused none pool_tx ∷ []

resumed_rows-IsOpenRow_example :
    All
      (IsOpenRow (keys_of (settled_rows rows)))
      (resumed_rows (keys_of (settled_rows rows)) (pool_tx ∷ stream_tx ∷ []) rows)
    × All (IsOpenRow (keys_of (settled_rows rows))) (accepted_rows (pool_tx ∷ stream_tx ∷ []) rows)
resumed_rows-IsOpenRow_example = resumed_rows-IsOpenRow rows (pool_tx ∷ stream_tx ∷ [])

after_row_rebuild-IsGuarded_example :
    IsGuarded
      (Option ℕ)
      ℕ
      holds
      idle_queue
      (rebuilt_plan (Option ℕ) ℕ (returned (row_plan 7)))
      (after_row_rebuild holds 0 0 (returned (row_plan 7)) idle_queue)
after_row_rebuild-IsGuarded_example =
    after_row_rebuild-IsGuarded (Option ℕ) ℕ holds 0 0 (returned (row_plan 7)) idle_queue

abbrev plain_call : FinalCall
plain_call = single (lending_call [] "claim" no_values)

abbrev plain_action : ReadyAction
plain_action = record {
  action_type = claim_share;
  identity = dave;
  preconditions = [];
  authorizations = [];
  call = plain_call;
  touched_resources = [];
  review = record {
    action_type = claim_share;
    title = "CLAIM SHARE";
    identity = dave;
    call = plain_call;
    authorizations = [];
    route = none;
    economics = [];
  };
  receipt_summary = record {
    source = [];
    event_name = none;
    label = "CLAIMED";
    expected_ids = [];
    expected_amounts = [];
  };
}

abbrev receipt : QueuedTx → ReceiptResult (Option ℕ)
receipt tx = record {
  hash = [];
  receipt = record { transaction_hash = []; is_success = true; block_number = pos 3 };
  draft = record { action = plain_action; request = none };
  identity = dave;
}

abbrev plan_seven : QueuedTx → ℕ
plan_seven tx = 7

started-IsFinished_example :
    IsFinished (Option ℕ) ℕ dave plan_seven receipt (stream_tx ∷ pool_tx ∷ []) (
      run_events
        (started holds (stream_tx ∷ pool_tx ∷ [])
          ∷ successes (Option ℕ) ℕ dave plan_seven receipt (stream_tx ∷ pool_tx ∷ []))
        idle_machine)
started-IsFinished_example =
    started-IsFinished (Option ℕ) ℕ dave plan_seven receipt idle_queue stream_tx (pool_tx ∷ []) refl
