-- ===== src/ClaimAll/Whole.antt =====
-- `planClaimAll` of web/lib/claim-all.ts: each claim of the input has its place in the plan.
use ovrflo.Prelude.{
  suc, ◌≡◌, ◌⊎◌, refl, sym, ap, subst, ◌∙◌, inl, inr, some, List, [], ◌∷◌, ◌++◌, map, arith, filter,
  sort, All, All-get, Bool-cases,
}
use ovrflo.Prelude.Int.{ℤ, pos, ◌<ℤ◌, ◌≤ℤ◌, ltb_ℤ, eqb_ℤ}
use ovrflo.Prelude.Sorting.{
  Occurs, All-map, All-Occurs, Occurs-sort, Occurs-map, Occurs-append_left, Occurs-append_right,
  Occurs-filter,
}
use ovrflo.Prelude.Text.{Text, lower, text_eq, text_eq_iff}
use ovrflo.Prelude.Errors.{Result, ok, err, IfReturns, ◌>>=◌}
use ovrflo.ClaimAll.{
  PoolClaim, QueuedTx, pool_claims, stream_claim, PoolInput, StreamInput, ClaimAllInput,
  is_withdrawable, Entry, Entries, entry_at, group_pools, claim_before, stream_before, entry_before,
  pool_tx, stream_tx, plan_claim_all,
}
use ovrflo.ClaimAll.Grouping.{IsEntry, group_pools-IsEntry}
use ovrflo.ClaimAll.Complete.{IsHeld, claim_of, group_pools-IsHeld, same_loan}

entry_at-Occurs :
    (k : Text) (es : Entries) (e : Entry)
    → entry_at k es ≡ some e
    → (l : Text) × Occurs (l, e) es × (l ≡ k)
entry_at-Occurs k [] e h = absurd (cc)
entry_at-Occurs k (d ∷ es) e h = elim (Bool-cases (text_eq d.0 k)) [
  | inl f ↦
      let same : some d.1 ≡ some e = sym (rw f refl) ∙ h in
      let value : d.1 ≡ e = cc in (d.0, (0, ap (λ v. some (d.0, v)) value), (text_eq_iff d.0 k).0 f)
  | inr f ↦
      let rest : entry_at k es ≡ some e = sym (rw f refl) ∙ h in
      let (l, (i, o), same) = entry_at-Occurs k es e rest in (l, (suc i, o), same)
]

claim_of-Occurs :
    (id : ℤ) (cs : List PoolClaim) (c : PoolClaim)
    → claim_of id cs ≡ some c
    → Occurs c cs × (c.loan_id ≡ id)
claim_of-Occurs id [] c h = absurd (cc)
claim_of-Occurs id (d ∷ cs) c h = elim (Bool-cases (eqb_ℤ d.loan_id id)) [
  | inl f ↦
      let same : some d ≡ some c = sym (rw f refl) ∙ h in
      let value : d ≡ c = cc in
      ((0, same), ap (λ (b : PoolClaim). b.loan_id) (sym value) ∙ same_loan d.loan_id id f)
  | inr f ↦
      let rest : claim_of id cs ≡ some c = sym (rw f refl) ∙ h in
      let ((i, o), same) = claim_of-Occurs id cs c rest in ((suc i, o), same)
]

-- A transaction of the plan claims the pool's loan, for its amount, of its lending contract.
abbrev pub IsClaimed : PoolInput → List QueuedTx → Type 0
IsClaimed q txs =
    (e : Entry) × Occurs (pool_claims e.lending (sort claim_before e.claims) e.asset) txs
    × (lower e.lending ≡ lower q.lending)
    × ((c : PoolClaim) × Occurs c (sort claim_before e.claims)
        × (c.loan_id ≡ q.loan_id)
        × (c.claimable ≡ q.claimable))

held-IsClaimed :
    (pools : List PoolInput) (q : PoolInput) (es : Entries) (rest : List QueuedTx)
    → IsHeld q es
    → All (IsEntry pools) es
    → IsClaimed q (map pool_tx (sort entry_before es) ++ rest)
held-IsClaimed pools q es rest (e, at, (c, held, amount)) h =
    let (k, place, same) = entry_at-Occurs (lower q.lending) es e at in
    let (in_claims, loan) = claim_of-Occurs q.loan_id e.claims c held in
    let entry = All-get (IsEntry pools) es place.0 (k, e) h place.1 in
    (
      e,
      Occurs-append_left _ (map pool_tx (sort entry_before es)) rest (
          Occurs-map pool_tx (k, e) (sort entry_before es)
            (Occurs-sort entry_before (k, e) es place)),
      sym entry.0 ∙ same,
      (c, Occurs-sort claim_before c e.claims in_claims, loan, amount),
    )

-- The plan claims the pool, or there is nothing to claim of it.
abbrev pub PoolPlanned : List QueuedTx → PoolInput → Type 0
PoolPlanned txs q = (q.claimable ≤ℤ pos 0) ⊎ IsClaimed q txs

-- The plan withdraws what the stream has, or there is nothing to withdraw.
abbrev pub StreamPlanned : List QueuedTx → StreamInput → Type 0
StreamPlanned txs s =
    (s.withdrawable ≤ℤ pos 0) ⊎ Occurs (stream_claim s.stream_id s.withdrawable s.asset) txs

abbrev pub IsWhole : ClaimAllInput → List QueuedTx → Type 0
IsWhole input txs = All (PoolPlanned txs) input.pools × All (StreamPlanned txs) input.streams

grouped-IsHeld :
    (pools : List PoolInput) (es : Entries) (q : PoolInput)
    → group_pools [] pools ≡ ok es
    → Occurs q pools
    → pos 0 <ℤ q.claimable
    → IsHeld q es
grouped-IsHeld pools es q grouped o h =
    subst (λ r. IfReturns r (IsHeld q)) grouped (group_pools-IsHeld pools [] o.0 q o.1 h)

grouped-IsEntry :
    (pools : List PoolInput) (es : Entries) → group_pools [] pools ≡ ok es → All (IsEntry pools) es
grouped-IsEntry pools es grouped =
    subst (λ r. IfReturns r (All (IsEntry pools))) grouped
      (group_pools-IsEntry pools pools [] (All-Occurs pools) tt)

pool-PoolPlanned :
    (pools : List PoolInput) (es : Entries) (rest : List QueuedTx)
    → group_pools [] pools ≡ ok es
    → (q : PoolInput) → Occurs q pools
    → PoolPlanned (map pool_tx (sort entry_before es) ++ rest) q
pool-PoolPlanned pools es rest grouped q o = elim (Bool-cases (ltb_ℤ (pos 0) q.claimable)) [
  | inl e ↦
      let due : pos 0 <ℤ q.claimable = ground arith in
      inr (
        held-IsClaimed pools q es rest (grouped-IsHeld pools es q grouped o due)
          (grouped-IsEntry pools es grouped))
  | inr e ↦ inl (ground arith)
]

stream-StreamPlanned :
    (streams : List StreamInput) (before : List QueuedTx) (s : StreamInput)
    → Occurs s streams
    → StreamPlanned
        (before ++ map stream_tx (sort stream_before (filter is_withdrawable streams)))
        s
stream-StreamPlanned streams before s o = elim (Bool-cases (ltb_ℤ (pos 0) s.withdrawable)) [
  | inl e ↦ inr (
      Occurs-append_right _ before _ (
        Occurs-map stream_tx s (sort stream_before (filter is_withdrawable streams)) (
          Occurs-sort stream_before s (filter is_withdrawable streams)
            (Occurs-filter is_withdrawable s streams e o))))
  | inr e ↦ inl (ground arith)
]

grouped-IsWhole :
    (input : ClaimAllInput) (r : Result Entries)
    → group_pools [] input.pools ≡ r
    → IfReturns
        (r >>= λ es. ok (
          map pool_tx (sort entry_before es)
          ++ map stream_tx (sort stream_before (filter is_withdrawable input.streams))))
        (IsWhole input)
grouped-IsWhole input (err e) h = tt
grouped-IsWhole input (ok es) h = (
  All-map (pool-PoolPlanned input.pools es _ h) input.pools (All-Occurs input.pools),
  All-map (stream-StreamPlanned input.streams _) input.streams (All-Occurs input.streams),
)

-- A plan that is returned leaves nothing out: of each pool of the input there is nothing to claim,
-- or its loan is claimed, for that amount, in a transaction of its lending contract; and of each
-- stream there is nothing to withdraw, or a transaction of its own withdraws what it has.
pub plan_claim_all-IsWhole :
    (input : ClaimAllInput) → IfReturns (plan_claim_all input) (IsWhole input)
unfolding plan_claim_all
plan_claim_all-IsWhole input = grouped-IsWhole input (group_pools [] input.pools) refl
