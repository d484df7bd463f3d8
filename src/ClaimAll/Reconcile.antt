-- ===== src/ClaimAll/Reconcile.antt =====
-- `sameClaimAllPlan` and `reconcileQueuedTx` of web/lib/claim-all.ts. The texts that they compare
-- are equal exactly if the parts are, up to the case of addresses.
use ovrflo.Prelude.{Bool, true, false, ◌&&◌, Option, none, some, List, [], ◌∷◌, if◌then◌else◌}
use ovrflo.Prelude.Int.{eqb_ℤ}
use ovrflo.Prelude.Text.{Text, lower, text_eq}
use ovrflo.ClaimAll.{PoolClaim, QueuedTx, pool_claims, stream_claim}

pub data RowReconciliation : Type 0 where
  row_ready : QueuedTx → RowReconciliation
  row_needs_review : QueuedTx → RowReconciliation
  row_skipped : RowReconciliation

abbrev pub same_text : Text → Text → Bool
same_text a b = text_eq (lower a) (lower b)

unfoldable pub same_claims : List PoolClaim → List PoolClaim → Bool
same_claims [] [] = true
same_claims [] (d ∷ ds) = false
same_claims (c ∷ cs) [] = false
same_claims (c ∷ cs) (d ∷ ds) =
    eqb_ℤ c.loan_id d.loan_id && eqb_ℤ c.claimable d.claimable && same_claims cs ds

-- `stableTx(left) === stableTx(right)`
unfoldable pub same_tx : QueuedTx → QueuedTx → Bool
same_tx (pool_claims l cs a) (pool_claims m ds b) =
    same_text l m && same_claims cs ds && same_text a b
same_tx (pool_claims l cs a) (stream_claim i w b) = false
same_tx (stream_claim i w a) (pool_claims m ds b) = false
same_tx (stream_claim i w a) (stream_claim j v b) = eqb_ℤ i j && eqb_ℤ w v && same_text a b

unfoldable pub same_claim_all_plan : List QueuedTx → List QueuedTx → Bool
same_claim_all_plan [] [] = true
same_claim_all_plan [] (b ∷ bs) = false
same_claim_all_plan (a ∷ xs) [] = false
same_claim_all_plan (a ∷ xs) (b ∷ bs) = same_tx a b && same_claim_all_plan xs bs

unfoldable pub reconcile_queued_tx : QueuedTx → Option QueuedTx → RowReconciliation
reconcile_queued_tx reviewed none = row_skipped
reconcile_queued_tx reviewed (some current) =
    if same_tx reviewed current then row_ready reviewed else row_needs_review current
