-- ===== src/ClaimAll/Grouping.antt =====
-- `planClaimAll` of web/lib/claim-all.ts: what the plan claims.
use ovrflo.Prelude.{
  ◌≡◌, refl, sym, ◌∙◌, inl, inr, true, Option, none, some, List, [], ◌∷◌, ◌++◌, map, arith, filter,
  find, sort, All, All-filter, Bool-cases,
}
use ovrflo.Prelude.Int.{pos, ◌<ℤ◌, leb_ℤ, eqb_ℤ}
use ovrflo.Prelude.Sorting.{All-both, All-sort, All-filter_keep, Occurs, All-Occurs}
use ovrflo.Prelude.Text.{Text, lower, text_eq, text_eq_iff}
use ovrflo.Prelude.Errors.{IfReturns, IfReturns->>=}
use ovrflo.ClaimAll.{
  PoolClaim, QueuedTx, pool_claims, stream_claim, PoolInput, StreamInput, ClaimAllInput,
  is_withdrawable, Entry, Entries, entry_at, set_entry, entry_or_new, with_claim, add_claim,
  add_pool, group_pools, claim_before, stream_before, entry_before, pool_tx, stream_tx,
  plan_claim_all,
}

All-join : {A : Type 0} (P : A → Type 0) (xs ys : List A) → All P xs → All P ys → All P (xs ++ ys)
All-join P [] ys h k = k
All-join P (x ∷ xs) ys h k = (h.0, All-join P xs ys h.1 k)

module _ (pools : List PoolInput) where
  -- The claim is of a pool of the input, for its positive amount, in its contract and asset.
  abbrev pub IsFromPool : Text → Text → PoolClaim → Type 0
  IsFromPool lending asset c =
      (p : PoolInput) × Occurs p pools
      × (pos 0 <ℤ c.claimable)
      × (c.loan_id ≡ p.loan_id)
      × (c.claimable ≡ p.claimable)
      × (lower lending ≡ lower p.lending)
      × (lower asset ≡ lower p.asset)

  abbrev pub IsEntry : Text × Entry → Type 0
  IsEntry e = (e.0 ≡ lower e.1.lending) × All (IsFromPool e.1.lending e.1.asset) e.1.claims

  All-append :
      {A : Type 0} (P : A → Type 0) (xs : List A) (y : A) → All P xs → P y → All P (xs ++ y ∷ [])
  All-append P [] y h k = (k, tt)
  All-append P (x ∷ xs) y h k = (h.0, All-append P xs y h.1 k)

  set_entry-IsEntry :
      (key : Text) (entry : Entry) (es : Entries)
      → key ≡ lower entry.lending
      → All (IsFromPool entry.lending entry.asset) entry.claims
      → All IsEntry es
      → All IsEntry (set_entry key entry es)
  set_entry-IsEntry key entry [] k c h = ((k, c), tt)
  set_entry-IsEntry key entry (e ∷ es) k c h = elim (Bool-cases (text_eq e.0 key)) [
    | inl f ↦ rw f (((text_eq_iff e.0 key).0 f ∙ k, c), h.1)
    | inr f ↦ rw f (h.0, set_entry-IsEntry key entry es k c h.1)
  ]

  entry_at-IsEntry :
      (key : Text) (es : Entries) (p : PoolInput)
      → key ≡ lower p.lending
      → All IsEntry es
      → (lower (entry_or_new (entry_at key es) p).lending ≡ key)
        × All
            (IsFromPool
              (entry_or_new (entry_at key es) p).lending
              (entry_or_new (entry_at key es) p).asset)
            (entry_or_new (entry_at key es) p).claims
  entry_at-IsEntry key [] p k h = (sym k, tt)
  entry_at-IsEntry key (e ∷ es) p k h = elim (Bool-cases (text_eq e.0 key)) [
    | inl f ↦ rw f (sym h.0.0 ∙ (text_eq_iff e.0 key).0 f, h.0.1)
    | inr f ↦ rw f (entry_at-IsEntry key es p k h.1)
  ]

  add_claim-IsEntry :
      (es : Entries) (p : PoolInput) (e : Entry)
      → Occurs p pools
      → All IsEntry es
      → lower e.lending ≡ lower p.lending
      → All (IsFromPool e.lending e.asset) e.claims
      → pos 0 <ℤ p.claimable
      → lower e.asset ≡ lower p.asset
      → (found : Option PoolClaim) → IfReturns (add_claim es p e found) (All IsEntry)
  add_claim-IsEntry es p e o h place kept positive asset none =
      set_entry-IsEntry (lower p.lending) (with_claim e p) es (sym place)
        (All-append (IsFromPool e.lending e.asset) e.claims _ kept
          (p, o, positive, refl, refl, place, asset))
        h
  add_claim-IsEntry es p e o h place kept positive asset (some d) =
      elim (Bool-cases (eqb_ℤ d.claimable p.claimable)) [ inl f ↦ rw f h | inr f ↦ rw f tt ]

  pub add_pool-IsEntry :
      (es : Entries) (p : PoolInput)
      → Occurs p pools
      → All IsEntry es
      → IfReturns (add_pool es p) (All IsEntry)
  unfolding add_pool
  add_pool-IsEntry es p o h =
      let e = entry_or_new (entry_at (lower p.lending) es) p in
      let (place, kept) = entry_at-IsEntry (lower p.lending) es p refl h in
      elim (Bool-cases (leb_ℤ p.claimable (pos 0))) [
        | inl f ↦ rw f h
        | inr f ↦ elim (Bool-cases (text_eq (lower e.asset) (lower p.asset))) [
          | inr g ↦ rw (f, g) tt
          | inl g ↦
              rw (f, g)
                (add_claim-IsEntry es p e o h place kept (ground arith) ((text_eq_iff _ _).0 g)
                  (find (λ (c : PoolClaim). eqb_ℤ c.loan_id p.loan_id) e.claims))
        ]
      ]

  pub group_pools-IsEntry :
      (ps : List PoolInput) (es : Entries)
      → All (λ p. Occurs p pools) ps
      → All IsEntry es
      → IfReturns (group_pools es ps) (All IsEntry)
  unfolding group_pools
  group_pools-IsEntry [] es o h = h
  group_pools-IsEntry (p ∷ ps) es o h =
      IfReturns->>= (add_pool es p) (λ es'. group_pools es' ps) (All IsEntry) (All IsEntry)
        (add_pool-IsEntry es p o.0 h) (λ es' k. group_pools-IsEntry ps es' o.1 k)

-- The transaction claims what the input holds: of pools of one contract and asset, or of a stream,
-- and only positive amounts.
abbrev pub IsClaim : ClaimAllInput → QueuedTx → Type 0
IsClaim input (pool_claims lending claims asset) = All (IsFromPool input.pools lending asset) claims
IsClaim input (stream_claim id withdrawable asset) =
    (s : StreamInput) × Occurs s input.streams
    × (pos 0 <ℤ withdrawable)
    × (id ≡ s.stream_id)
    × (withdrawable ≡ s.withdrawable)
    × (asset ≡ s.asset)

pool_txs-IsClaim :
    (input : ClaimAllInput) (es : Entries)
    → All (IsEntry input.pools) es
    → All (IsClaim input) (map pool_tx es)
pool_txs-IsClaim input [] h = tt
pool_txs-IsClaim input (e ∷ es) h = (
  All-sort (IsFromPool input.pools e.1.lending e.1.asset) claim_before e.1.claims h.0.1,
  pool_txs-IsClaim input es h.1,
)

stream_txs-IsClaim :
    (input : ClaimAllInput) (ss : List StreamInput)
    → All (λ s. Occurs s input.streams × (is_withdrawable s ≡ true)) ss
    → All (IsClaim input) (map stream_tx ss)
stream_txs-IsClaim input [] h = tt
stream_txs-IsClaim input (s ∷ ss) h =
    ((s, h.0.0, ground (arith, h.0.1), refl, refl, refl), stream_txs-IsClaim input ss h.1)

-- A plan that is returned claims only what the input holds, each claim under the contract and the
-- asset of its pool or stream, and only positive amounts.
pub plan_claim_all-IsClaim :
    (input : ClaimAllInput) → IfReturns (plan_claim_all input) (All (IsClaim input))
unfolding plan_claim_all
plan_claim_all-IsClaim input =
    let streams = filter is_withdrawable input.streams in
    IfReturns->>= (group_pools [] input.pools) _ (All (IsEntry input.pools)) (All (IsClaim input))
      (group_pools-IsEntry input.pools input.pools [] (All-Occurs input.pools) tt)
      (λ es h.
        All-join (IsClaim input) (map pool_tx (sort entry_before es)) _
          (pool_txs-IsClaim input (sort entry_before es)
            (All-sort (IsEntry input.pools) entry_before es h))
          (stream_txs-IsClaim input (sort stream_before streams) (
            All-sort _ stream_before streams (
              All-both _ _ streams
                (All-filter_keep (λ s. Occurs s input.streams) is_withdrawable input.streams
                  (All-Occurs input.streams))
                (All-filter is_withdrawable input.streams)))))
