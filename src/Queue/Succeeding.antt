-- ===== src/Queue/Succeeding.antt =====
-- web/hooks/useTxQueue.ts: a queue of which every row is rebuilt and executed comes to its end.
use ovrflo.Prelude.{
  ℕ, zero, suc, ◌≡◌, ◌==◌, refl, sym, ap, subst, ◌∙◌, true, false, none, some, List, [], ◌∷◌, ◌++◌,
  map, length, drop, arith, ==_iff, All, all, any, ◌&&◌, not,
}
use ovrflo.Prelude.Text.{lower, text_eq_refl}
use ovrflo.Action.{ActionIdentity}
use ovrflo.Runtime.{Awaited, returned, ReceiptResult}
use ovrflo.Runtime
use ovrflo.ClaimAll.{QueuedTx}
use ovrflo.Queue.{
  holds, QueueRow, QueueState, pending, preparing, confirmed, complete_success, QueueRowStatus,
  is_settled, is_confirmed, identity_check, queue_outcome, set_status, update_rows, invariant_now,
}
use ovrflo.Queue.Process.{
  row_plan, rebuilding, confirming, scan, process_at, after_row_rebuild, after_row_confirm,
}
use ovrflo.Queue.Commands.{new_row, new_run, start}
use ovrflo.Queue.Machine.{
  Event, started, row_rebuilt, row_confirmed, Machine, rebuild_answer, confirm_answer, then_wait,
  step, run_events,
}

update-at :
    (i : ℕ) (status : QueueRowStatus) (done : List QueueRow) (row : QueueRow) (rest : List QueueRow)
    → length done ≡ i
    → update_rows i status none (done ++ row ∷ rest) ≡ done ++ set_status status none row ∷ rest
unfolding update_rows
update-at zero status [] row rest h = refl
update-at (suc i) status [] row rest h = absurd (omega arith)
update-at zero status (r ∷ done) row rest h = absurd (omega arith)
update-at (suc i) status (r ∷ done) row rest h =
    ap (λ rs. r ∷ rs) (update-at i status done row rest (omega arith))

drop-past :
    (i : ℕ) (done : List QueueRow) (row : QueueRow) (rest : List QueueRow)
    → length done ≡ i
    → drop (suc i) (done ++ row ∷ rest) ≡ rest
drop-past zero [] row rest h = refl
drop-past (suc i) [] row rest h = absurd (omega arith)
drop-past zero (r ∷ done) row rest h = absurd (omega arith)
drop-past (suc i) (r ∷ done) row rest h = drop-past i done row rest (omega arith)

append-next :
    (done : List QueueRow) (row : QueueRow) (rest : List QueueRow)
    → done ++ row ∷ rest ≡ (done ++ row ∷ []) ++ rest
append-next [] row rest = refl
append-next (r ∷ done) row rest = ap (λ rs. r ∷ rs) (append-next done row rest)

length-next :
    (done : List QueueRow) (row : QueueRow) → length (done ++ row ∷ []) ≡ suc (length done)
length-next [] row = refl
length-next (r ∷ done) row = ap suc (length-next done row)

abbrev pub IsConfirmed : QueueRow → Type 0
IsConfirmed r = r.status ≡ confirmed

All-next :
    (done : List QueueRow) (row : QueueRow)
    → All IsConfirmed done
    → IsConfirmed row
    → All IsConfirmed (done ++ row ∷ [])
All-next [] row h g = (g, tt)
All-next (r ∷ done) row h g = (h.0, All-next done row h.1 g)

all_settled :
    (rows : List QueueRow)
    → All IsConfirmed rows
    → (all (λ (r : QueueRow). is_settled r.status) rows ≡ true)
      × (any (λ (r : QueueRow). is_settled r.status && not (is_confirmed r.status)) rows ≡ false)
all_settled [] h = (refl, refl)
all_settled (r ∷ rows) h =
    let (a, b) = all_settled rows h.1 in (simp (h.0, a) refl, simp (h.0, b) refl)

identity_check_self : (i : ActionIdentity) → identity_check (some i) (some i) ≡ holds
identity_check_self i =
    rw ((==_iff i.chain_id i.chain_id).1 refl, text_eq_refl (lower i.account)) refl

abbrev pub tx_of : QueueRow → QueuedTx
tx_of r = r.tx

map-tx-append : (xs ys : List QueueRow) → map tx_of (xs ++ ys) ≡ map tx_of xs ++ map tx_of ys
map-tx-append [] ys = refl
map-tx-append (x ∷ xs) ys = ap (λ rs. tx_of x ∷ rs) (map-tx-append xs ys)

map-tx-pending : (txs : List QueuedTx) → map tx_of (map (new_row pending none) txs) ≡ txs
map-tx-pending [] = refl
map-tx-pending (tx ∷ txs) = ap (λ rs. tx ∷ rs) (map-tx-pending txs)

append-txs :
    (xs : List QueuedTx) (tx : QueuedTx) (txs : List QueuedTx)
    → (xs ++ tx ∷ []) ++ txs ≡ xs ++ tx ∷ txs
append-txs [] tx txs = refl
append-txs (x ∷ xs) tx txs = ap (λ rs. x ∷ rs) (append-txs xs tx txs)

module _ (R Plan : Type 0) (identity : ActionIdentity) (plan_of : QueuedTx → Plan)
    (receipt_of : QueuedTx → ReceiptResult R) where
  -- Each row is rebuilt to a plan, and the plan is executed to a receipt.
  abbrev pub successes : List QueuedTx → List (Event R Plan)
  successes [] = []
  successes (tx ∷ txs) =
      row_rebuilt holds 0 (returned (row_plan (plan_of tx)))
      ∷ row_confirmed holds 0 (returned (Runtime.success (receipt_of tx)))
      ∷ successes txs

  -- A queue of the rows, in a run for the identity.
  abbrev pub running_queue : ℕ → List QueueRow → QueueState R
  running_queue run rows = record {
    identity = some identity;
    owner = some identity;
    generation = run;
    rows = rows;
    refresh_failure = none;
    running = true;
    is_paused = false;
    pause_reason = none;
    error = none;
  }

  -- The queue is over, with every transaction confirmed.
  abbrev pub IsFinished : List QueuedTx → Machine R Plan → Type 0
  IsFinished txs m =
      (m.waiting ≡ [])
      × (m.queue.running ≡ false)
      × (map tx_of m.queue.rows ≡ txs)
      × All IsConfirmed m.queue.rows
      × (queue_outcome m.queue ≡ complete_success)

  abbrev pub preparing_at : ℕ → ℕ → List QueueRow → QueuedTx → List QueuedTx → Machine R Plan
  preparing_at run i done tx txs = record {
    queue = running_queue run (done ++ new_row preparing none tx ∷ map (new_row pending none) txs);
    waiting = rebuilding i run tx identity ∷ [];
  }

  -- A run goes on from the rows that are pending after those that are done.
  abbrev pub next_at : ℕ → ℕ → List QueueRow → List QueuedTx → Machine R Plan
  next_at run i done [] = record {
    queue = record (running_queue run done) { running = false };
    waiting = [];
  }
  next_at run i done (tx ∷ txs) = preparing_at run i done tx txs

  process-next :
      (run i : ℕ) (done : List QueueRow) (row : QueueRow) (txs : List QueuedTx)
      → length done ≡ i
      → then_wait
          (process_at holds
            (suc i)
            run
            (running_queue run (done ++ row ∷ map (new_row pending none) txs)))
          []
        ≡ next_at run (suc i) (done ++ row ∷ []) txs
  unfolding process_at invariant_now scan set_status
  process-next run i done row [] h =
      simp ((==_iff run run).1 refl, identity_check_self identity, drop-past i done row [] h) refl
  process-next run i done row (tx ∷ txs) h =
      let waiting = map (new_row pending none) txs in
      simp
        (
          (==_iff run run).1 refl,
          identity_check_self identity,
          drop-past i done row (new_row pending none tx ∷ waiting) h,
        )
        (rw
          (
            append-next done row (new_row pending none tx ∷ waiting),
            update-at (suc i) preparing (done ++ row ∷ []) (new_row pending none tx) waiting
                (length-next done row ∙ ap suc h),
          )
          refl)

  abbrev pub rebuilt_event : QueuedTx → Event R Plan
  rebuilt_event tx = row_rebuilt holds 0 (returned (row_plan (plan_of tx)))

  abbrev pub confirmed_event : QueuedTx → Event R Plan
  confirmed_event tx = row_confirmed holds 0 (returned (Runtime.success (receipt_of tx)))

  step-rebuilt :
      (run i : ℕ) (tx : QueuedTx) (rows : List QueueRow)
      → step
          (rebuilt_event tx)
          (record { queue = running_queue run rows; waiting = rebuilding i run tx identity ∷ [] })
        ≡ record { queue = running_queue run rows; waiting = confirming i run (plan_of tx) ∷ [] }
  unfolding step rebuild_answer after_row_rebuild invariant_now
  step-rebuilt run i tx rows = simp ((==_iff run run).1 refl, identity_check_self identity) refl

  step-confirmed :
      (run i : ℕ) (tx : QueuedTx) (plan : Plan) (rows : List QueueRow)
      → step
          (confirmed_event tx)
          (record { queue = running_queue run rows; waiting = confirming i run plan ∷ [] })
        ≡ then_wait
            (process_at holds (suc i) run (running_queue run (update_rows i confirmed none rows)))
            []
  unfolding step confirm_answer after_row_confirm
  step-confirmed run i tx plan rows = simp ((==_iff run run).1 refl) refl

  -- The answers for a row bring the run to the next one.
  row-next :
      (run i : ℕ) (done : List QueueRow) (tx : QueuedTx) (txs : List QueuedTx)
      → length done ≡ i
      → step (confirmed_event tx) (step (rebuilt_event tx) (preparing_at run i done tx txs))
        ≡ next_at run (suc i) (done ++ new_row confirmed none tx ∷ []) txs
  unfolding set_status
  row-next run i done tx txs h =
      ap (step (confirmed_event tx)) (step-rebuilt run i tx _)
      ∙ step-confirmed run i tx (plan_of tx) _
      ∙ ap (λ rows. then_wait (process_at holds (suc i) run (running_queue run rows)) [])
          (update-at i confirmed done (new_row preparing none tx) (map (new_row pending none) txs)
            h)
      ∙ process-next run i done (new_row confirmed none tx) txs h

  next_at-IsFinished :
      (run : ℕ) (done : List QueueRow)
      → All IsConfirmed done
      → (length done == 0) ≡ false
      → IsFinished (map tx_of done) (next_at run (length done) done [])
  unfolding queue_outcome
  next_at-IsFinished run done h n =
      let (a, b) = all_settled done h in (refl, refl, refl, h, simp (n, a, b) refl)

  start-preparing :
      (s : QueueState R) (tx : QueuedTx) (txs : List QueuedTx)
      → s.identity ≡ some identity
      → then_wait (start holds (tx ∷ txs) s) [] ≡ preparing_at (suc s.generation) 0 [] tx txs
  unfolding start new_run process_at invariant_now scan set_status update_rows
  start-preparing s tx txs who =
      simp
        (who, (==_iff (suc s.generation) (suc s.generation)).1 refl, identity_check_self identity)
        refl

  successes-IsFinished :
      (run i : ℕ) (done : List QueueRow) (tx : QueuedTx) (txs : List QueuedTx)
      → length done ≡ i
      → All IsConfirmed done
      → IsFinished
          (map tx_of done ++ tx ∷ txs)
          (run_events (successes (tx ∷ txs)) (preparing_at run i done tx txs))
  unfolding run_events
  successes-IsFinished run i done tx [] h all_done =
      let now = done ++ new_row confirmed none tx ∷ [] in
      let long = length-next done (new_row confirmed none tx) in
      let some_row : (length now == 0) ≡ false = ground (arith, long) in
      let count : length now ≡ suc i = long ∙ ap suc h in
      subst (IsFinished (map tx_of done ++ tx ∷ [])) (sym (row-next run i done tx [] h)) (
        subst (λ txs. IsFinished txs (next_at run (suc i) now []))
          (map-tx-append done (new_row confirmed none tx ∷ []))
          (next_at-IsFinished run now (All-next done (new_row confirmed none tx) all_done refl)
            some_row))
  successes-IsFinished run i done tx (next ∷ txs) h all_done =
      let row = new_row confirmed none tx in
      subst
        (λ m.
          IsFinished (map tx_of done ++ tx ∷ next ∷ txs) (run_events (successes (next ∷ txs)) m))
        (sym (row-next run i done tx (next ∷ txs) h))
        (subst
          (λ all_txs. IsFinished all_txs (
            run_events (successes (next ∷ txs))
              (preparing_at run (suc i) (done ++ row ∷ []) next txs)))
          (ap (λ front. front ++ next ∷ txs) (map-tx-append done (row ∷ []))
            ∙ append-txs (map tx_of done) tx (next ∷ txs))
          (successes-IsFinished run (suc i) (done ++ row ∷ []) next txs
            (length-next done row ∙ ap suc h) (All-next done row all_done refl)))

  -- A queue that is started with a plan, for an identity that stays, comes to its end if every
  -- row is rebuilt and executed with success while the invariants hold. After two answers for
  -- each transaction it waits for nothing and runs no longer, and its rows are the plan's
  -- transactions in their order, all of them confirmed.
  pub started-IsFinished :
      (s : QueueState R) (tx : QueuedTx) (txs : List QueuedTx)
      → s.identity ≡ some identity
      → IsFinished (tx ∷ txs) (
          run_events
            (started holds (tx ∷ txs) ∷ successes (tx ∷ txs))
            (record { queue = s; waiting = [] }))
  unfolding run_events step
  started-IsFinished s tx txs who =
      subst (λ m. IsFinished (tx ∷ txs) (run_events (successes (tx ∷ txs)) m))
        (sym (start-preparing s tx txs who))
        (successes-IsFinished (suc s.generation) 0 [] tx txs refl tt)
