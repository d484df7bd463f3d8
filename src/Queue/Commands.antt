-- ===== src/Queue/Commands.antt =====
-- `start`, `resume` and `acceptReview` of web/hooks/useTxQueue.ts. A key of the source is a text;
-- here it is its parts, since an address holds no colon.
use ovrflo.Prelude.{
  ℕ, suc, ◌+◌, Bool, true, false, not, ◌&&◌, Option, none, some, List, [], ◌∷◌, ◌++◌, map, any,
  filter, length, if◌then◌else◌,
}
use ovrflo.Prelude.Int.{ℤ, eqb_ℤ}
use ovrflo.Prelude.Text.{Text, lower, text_eq}
use ovrflo.Action.{ActionIdentity}
use ovrflo.Runtime.{
  Failure, Awaited, returned, threw, ActionExecutionResult, success, identity_changed,
}
use ovrflo.Runtime
use ovrflo.ClaimAll.{PoolClaim, QueuedTx, pool_claims, stream_claim}
use ovrflo.ClaimAll.Reconcile.{
  RowReconciliation, row_ready, row_needs_review, row_skipped, reconcile_queued_tx,
}
use ovrflo.Queue.{
  QueueInvariant, holds, broken, account, QueueRow, QueueRowStatus, QueueState, thrown_error,
  result_error, pending, preparing, confirmed, skipped, needs_review, refresh_failed, is_settled,
  update_row, pause_at, invariant_now,
}
use ovrflo.Queue.Process.{Task, retrying, stop_at, process_at}

-- `txCoverageKeys` of one claim, and `txGroupKey`: a pool's with the loan, or the pool alone.
pub data CoverKey : Type 0 where
  pool_key : Text → ℤ → CoverKey
  stream_key : ℤ → CoverKey

abbrev pub same_cover : CoverKey → CoverKey → Bool
same_cover (pool_key a i) (pool_key b j) = text_eq a b && eqb_ℤ i j
same_cover (pool_key a i) (stream_key j) = false
same_cover (stream_key i) (pool_key b j) = false
same_cover (stream_key i) (stream_key j) = eqb_ℤ i j

abbrev pub claim_key : Text → PoolClaim → CoverKey
claim_key lending c = pool_key (lower lending) c.loan_id

unfoldable pub tx_coverage_keys : QueuedTx → List CoverKey
tx_coverage_keys (pool_claims lending claims asset) = map (claim_key lending) claims
tx_coverage_keys (stream_claim i w asset) = stream_key i ∷ []

-- `txGroupKey(a) === txGroupKey(b)`
unfoldable pub same_group : QueuedTx → QueuedTx → Bool
same_group (pool_claims l cs a) (pool_claims m ds b) = text_eq (lower l) (lower m)
same_group (pool_claims l cs a) (stream_claim j w b) = false
same_group (stream_claim i v a) (pool_claims m ds b) = false
same_group (stream_claim i v a) (stream_claim j w b) = eqb_ℤ i j

abbrev pub has_key : List CoverKey → CoverKey → Bool
has_key completed key = any (same_cover key) completed

abbrev pub if_claims : Text → List PoolClaim → Text → Option QueuedTx
if_claims lending [] asset = none
if_claims lending (c ∷ cs) asset = some (pool_claims lending (c ∷ cs) asset)

unfoldable pub without_completed : List CoverKey → QueuedTx → Option QueuedTx
without_completed completed (stream_claim i w asset) =
    if has_key completed (stream_key i) then none else some (stream_claim i w asset)
without_completed completed (pool_claims lending claims asset) =
    if_claims lending
      (filter (λ (c : PoolClaim). not (has_key completed (claim_key lending c))) claims) asset

abbrev pub before_some : Option QueuedTx → List QueuedTx → List QueuedTx
before_some none rest = rest
before_some (some tx) rest = tx ∷ rest

-- What is left of a plan.
unfoldable pub remaining : List CoverKey → List QueuedTx → List QueuedTx
remaining completed [] = []
remaining completed (tx ∷ txs) =
    before_some (without_completed completed tx) (remaining completed txs)

abbrev pub keys_of : List QueueRow → List CoverKey
keys_of [] = []
keys_of (r ∷ rs) = tx_coverage_keys r.tx ++ keys_of rs

abbrev pub settled_rows : List QueueRow → List QueueRow
settled_rows rows = filter (λ (r : QueueRow). is_settled r.status) rows

abbrev pub new_row : QueueRowStatus → Option QueuedTx → QueuedTx → QueueRow
new_row status replacement tx = record { tx = tx; status = status; replacement = replacement }

abbrev pub or_found : Option QueuedTx → Bool → QueuedTx → Option QueuedTx
or_found (some later) here tx = some later
or_found none true tx = some tx
or_found none false tx = none

-- `currentByGroup.get(txGroupKey(tx))`: of transactions with one key, the map keeps the last.
unfoldable pub latest_of : QueuedTx → List QueuedTx → Option QueuedTx
latest_of tx [] = none
latest_of tx (c ∷ cs) = or_found (latest_of tx cs) (same_group tx c) c

abbrev pub reconciled_row : QueuedTx → RowReconciliation → QueueRow
reconciled_row reviewed (row_ready tx) = new_row pending none reviewed
reconciled_row reviewed (row_needs_review current) = new_row needs_review (some current) reviewed
reconciled_row reviewed row_skipped = new_row skipped none reviewed

-- What is left of the rows that are not settled.
unfoldable pub reviewed_txs : List CoverKey → List QueueRow → List QueuedTx
reviewed_txs completed rows =
    remaining completed
      (map (λ (r : QueueRow). r.tx) (filter (λ (r : QueueRow). not (is_settled r.status)) rows))

-- Transactions of the fresh plan whose group no reviewed transaction has.
abbrev pub is_new : List QueuedTx → QueuedTx → Bool
is_new reviewed tx = not (any (same_group tx) reviewed)

-- The rows that `resume` puts after the history.
unfoldable pub resumed_rows : List CoverKey → List QueuedTx → List QueueRow → List QueueRow
resumed_rows completed fresh rows =
    let current = remaining completed fresh in
    let reviewed = reviewed_txs completed rows in
    map (λ tx. reconciled_row tx (reconcile_queued_tx tx (latest_of tx current))) reviewed
    ++ map (λ tx. new_row needs_review (some tx) tx) (filter (is_new reviewed) current)

abbrev pub is_pending : QueueRowStatus → Bool
is_pending pending = true
is_pending _ = false

abbrev pub is_needs_review : QueueRowStatus → Bool
is_needs_review needs_review = true
is_needs_review _ = false

-- `findIndex` of a row that is pending.
unfoldable pub pending_index : List QueueRow → Option ℕ
pending_index [] = none
pending_index (r ∷ rs) =
    let rest = pending_index rs in if is_pending r.status then some 0 else next_index rest
  where
    next_index : Option ℕ → Option ℕ
    next_index none = none
    next_index (some i) = some (suc i)

-- The rows of a plan that was reviewed, after the history.
unfoldable pub accepted_rows : List QueuedTx → List QueueRow → List QueueRow
accepted_rows reviewed rows =
    map (new_row pending none) (remaining (keys_of (settled_rows rows)) reviewed)

module _ {R : Type 0} where
  -- A new generation for the wallet's identity, without an error or a pause.
  unfoldable pub new_run : QueueState R → QueueState R
  new_run s = record s {
    owner = s.identity;
    generation = suc s.generation;
    error = none;
    is_paused = false;
    pause_reason = none;
    running = true;
  }

  -- The end of the component's life.
  unfoldable pub unmount : QueueState R → QueueState R
  unmount s = record s { generation = suc s.generation }

module _ {R Plan : Type 0} where
  -- Where there is a plan and an identity.
  abbrev pub start_for :
      QueueInvariant
      → List QueuedTx
      → Option ActionIdentity
      → QueueState R
      → QueueState R × Option (Task Plan)
  start_for answer [] identity s = (s, none)
  start_for answer (tx ∷ txs) none s = (s, none)
  start_for answer (tx ∷ txs) (some identity) s =
      process_at answer 0 (suc s.generation) (record (new_run s) {
        refresh_failure = none;
        rows = map (new_row pending none) (tx ∷ txs);
      })

  unfoldable pub start :
      QueueInvariant → List QueuedTx → QueueState R → QueueState R × Option (Task Plan)
  start answer plan s = start_for answer plan s.identity s

  -- The retry of a refresh that failed, after a new run was begun.
  abbrev pub retry_row : QueueInvariant → ℕ → QueueState R → QueueState R × Option (Task Plan)
  retry_row (broken reason) i s = (pause_at i reason s, none)
  retry_row holds i s = (update_row i preparing none s, some (retrying i s.generation))

  -- The run from the first row that is pending, unless a row needs a review.
  abbrev pub resume_at :
      QueueInvariant → Bool → ℕ → Option ℕ → QueueState R → QueueState R × Option (Task Plan)
  resume_at answer requires_review count none s = (record s { running = false }, none)
  resume_at answer true count (some i) s = (record s { running = false }, none)
  resume_at answer false count (some i) s = process_at answer (count + i) s.generation s

  unfoldable pub resume_plan :
      QueueInvariant → List QueuedTx → QueueState R → QueueState R × Option (Task Plan)
  resume_plan answer fresh s =
      let history = settled_rows s.rows in
      let unresolved = resumed_rows (keys_of history) fresh s.rows in
      resume_at answer (any (λ (r : QueueRow). is_needs_review r.status) unresolved)
        (length history) (pending_index unresolved) (record s { rows = history ++ unresolved })

  abbrev pub resume_from :
      QueueInvariant → List QueuedTx → Option ℕ → QueueState R → QueueState R × Option (Task Plan)
  resume_from answer fresh (some i) s = retry_row (invariant_now answer s) i s
  resume_from answer fresh none s = resume_plan answer fresh s

  abbrev pub resume_for :
      QueueInvariant
      → List QueuedTx
      → Option ActionIdentity
      → QueueState R
      → QueueState R × Option (Task Plan)
  resume_for answer fresh none s = (s, none)
  resume_for answer fresh (some identity) s = resume_from answer fresh s.refresh_failure (new_run s)

  unfoldable pub resume :
      QueueInvariant → List QueuedTx → QueueState R → QueueState R × Option (Task Plan)
  resume answer fresh s = resume_for answer fresh s.identity s

  -- After `retryRefresh`, for a run that is not over.
  unfoldable pub after_refresh_retry :
      QueueInvariant
      → ℕ
      → ℕ
      → Awaited (Option (ActionExecutionResult R))
      → QueueState R
      → QueueState R × Option (Task Plan)
  after_refresh_retry answer i run (threw e) s =
      (stop_at i refresh_failed (some (thrown_error e)) s, none)
  after_refresh_retry answer i run (returned (some (success r))) s =
      process_at answer (suc i) run
        (update_row i confirmed none (record s { refresh_failure = none }))
  after_refresh_retry answer i run (returned (some identity_changed)) s =
      (pause_at i account s, none)
  after_refresh_retry answer i run (returned (some (Runtime.refresh_failed r e))) s = (
    stop_at i refresh_failed (some (result_error (some e))) (record s { refresh_failure = some i }),
    none,
  )
  after_refresh_retry answer i run (returned other) s = (stop_at i refresh_failed s.error s, none)

  abbrev pub accept_at :
      QueueInvariant → ℕ → List QueueRow → QueueState R → QueueState R × Option (Task Plan)
  accept_at answer count [] s = (record s { running = false }, none)
  accept_at answer count (r ∷ rs) s = process_at answer count s.generation s

  abbrev pub accept_for :
      QueueInvariant
      → List QueuedTx
      → Option ActionIdentity
      → QueueState R
      → QueueState R × Option (Task Plan)
  accept_for answer reviewed none s = (s, none)
  accept_for answer reviewed (some identity) s =
      let history = settled_rows s.rows in
      let waiting = accepted_rows reviewed s.rows in
      accept_at answer (length history) waiting
        (record (new_run s) { refresh_failure = none; rows = history ++ waiting })

  unfoldable pub accept_review :
      QueueInvariant → List QueuedTx → QueueState R → QueueState R × Option (Task Plan)
  accept_review answer reviewed s = accept_for answer reviewed s.identity s
