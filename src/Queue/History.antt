-- ===== src/Queue/History.antt =====
-- `resume` and `acceptReview` of web/hooks/useTxQueue.ts: what is settled is not asked for again.
use ovrflo.Prelude.{
  ◌≡◌, refl, sym, subst, inl, inr, Bool, false, not, none, some, List, [], ◌∷◌, ◌++◌, map, filter,
  All, Bool-cases,
}
use ovrflo.Prelude.Text.{Text}
use ovrflo.ClaimAll.{PoolClaim, QueuedTx, pool_claims, stream_claim}
use ovrflo.ClaimAll.Reconcile.{
  RowReconciliation, row_ready, row_needs_review, row_skipped, reconcile_queued_tx,
}
use ovrflo.Queue.{QueueRow, pending, needs_review}
use ovrflo.Queue.Commands.{
  CoverKey, stream_key, claim_key, tx_coverage_keys, has_key, if_claims, without_completed,
  before_some, remaining, keys_of, settled_rows, new_row, latest_of, reconciled_row, reviewed_txs,
  is_new, resumed_rows, accepted_rows,
}

-- None of the claims of a transaction is completed.
abbrev pub IsOpenTx : List CoverKey → QueuedTx → Type 0
IsOpenTx completed tx = All (λ k. has_key completed k ≡ false) (tx_coverage_keys tx)

open_claims :
    (completed : List CoverKey) (lending : Text) (cs : List PoolClaim)
    → All
        (λ k. has_key completed k ≡ false)
        (map
          (claim_key lending)
          (filter (λ (c : PoolClaim). not (has_key completed (claim_key lending c))) cs))
open_claims completed lending [] = tt
open_claims completed lending (c ∷ cs) =
    elim (Bool-cases (has_key completed (claim_key lending c))) [
      | inl e ↦ rw e (open_claims completed lending cs)
      | inr e ↦ simp e (refl, open_claims completed lending cs)
    ]

if_claims-IsOpenTx :
    (completed : List CoverKey) (lending : Text) (cs : List PoolClaim) (asset : Text)
    (rest : List QueuedTx)
    → All (λ k. has_key completed k ≡ false) (map (claim_key lending) cs)
    → All (IsOpenTx completed) rest
    → All (IsOpenTx completed) (before_some (if_claims lending cs asset) rest)
unfolding tx_coverage_keys
if_claims-IsOpenTx completed lending [] asset rest h g = g
if_claims-IsOpenTx completed lending (c ∷ cs) asset rest h g = (h, g)

remaining-IsOpenTx :
    (completed : List CoverKey) (txs : List QueuedTx)
    → All (IsOpenTx completed) (remaining completed txs)
unfolding remaining without_completed tx_coverage_keys
remaining-IsOpenTx completed [] = tt
remaining-IsOpenTx completed (pool_claims lending claims asset ∷ txs) =
    if_claims-IsOpenTx completed lending
      (filter (λ (c : PoolClaim). not (has_key completed (claim_key lending c))) claims) asset
      (remaining completed txs) (open_claims completed lending claims)
      (remaining-IsOpenTx completed txs)
remaining-IsOpenTx completed (stream_claim i w asset ∷ txs) =
    elim (Bool-cases (has_key completed (stream_key i))) [
      | inl e ↦ rw e (remaining-IsOpenTx completed txs)
      | inr e ↦ simp e ((refl, tt), remaining-IsOpenTx completed txs)
    ]

abbrev pub IsOpenRow : List CoverKey → QueueRow → Type 0
IsOpenRow completed r = IsOpenTx completed r.tx

All-rows :
    (completed : List CoverKey) (f : QueuedTx → QueueRow)
    → ((tx : QueuedTx) → (f tx).tx ≡ tx)
    → (txs : List QueuedTx) → All (IsOpenTx completed) txs
    → All (IsOpenRow completed) (map f txs)
All-rows completed f same [] h = tt
All-rows completed f same (tx ∷ txs) h =
    (subst (IsOpenTx completed) (sym (same tx)) h.0, All-rows completed f same txs h.1)

All-append {ℓ κ} :
    {A : Type ℓ} (P : A → Type κ) (xs ys : List A) → All P xs → All P ys → All P (xs ++ ys)
All-append P [] ys h g = g
All-append P (x ∷ xs) ys h g = (h.0, All-append P xs ys h.1 g)

All-kept {ℓ κ} :
    {A : Type ℓ} (P : A → Type κ) (p : A → Bool) (xs : List A) → All P xs → All P (filter p xs)
All-kept P p [] h = tt
All-kept P p (x ∷ xs) h = elim (Bool-cases (p x)) [
  | inl e ↦ rw e (h.0, All-kept P p xs h.1)
  | inr e ↦ rw e (All-kept P p xs h.1)
]

reconciled_row-tx : (tx : QueuedTx) (r : RowReconciliation) → (reconciled_row tx r).tx ≡ tx
reconciled_row-tx tx (row_ready other) = refl
reconciled_row-tx tx (row_needs_review current) = refl
reconciled_row-tx tx row_skipped = refl

-- The rows that `resume` and `acceptReview` put after the history cover no loan and no stream
-- that a confirmed or skipped row of the history covers, whatever plan they are given.
pub resumed_rows-IsOpenRow :
    (rows : List QueueRow) (plan : List QueuedTx)
    → All
        (IsOpenRow (keys_of (settled_rows rows)))
        (resumed_rows (keys_of (settled_rows rows)) plan rows)
      × All (IsOpenRow (keys_of (settled_rows rows))) (accepted_rows plan rows)
unfolding resumed_rows accepted_rows reviewed_txs
resumed_rows-IsOpenRow rows plan =
    let completed = keys_of (settled_rows rows) in
    let current = remaining completed plan in
    let reviewed = reviewed_txs completed rows in
    (
      All-append (IsOpenRow completed) _ _
          (All-rows completed
            (λ tx. reconciled_row tx (reconcile_queued_tx tx (latest_of tx current)))
            (λ tx. reconciled_row-tx tx (reconcile_queued_tx tx (latest_of tx current))) reviewed
            (remaining-IsOpenTx completed _))
          (All-rows completed (λ tx. new_row needs_review (some tx) tx) (λ tx. refl)
            (filter (is_new reviewed) current)
            (All-kept (IsOpenTx completed) (is_new reviewed) current
              (remaining-IsOpenTx completed plan))),
      All-rows completed (new_row pending none) (λ tx. refl) current
          (remaining-IsOpenTx completed plan),
    )
