-- ===== src/ClaimAll.antt =====
-- web/lib/claim-all.ts: the plan that claims all that an account can claim, one transaction for each
-- lending contract and then one for each stream.
pub mod Grouping
pub mod Complete
pub mod Whole
pub mod Preflight
pub mod Evaluate
pub mod Agreement
pub mod Ready
pub mod Reconcile
use ovrflo.Prelude.{
  Bool, true, false, not, ◌&&◌, ◌||◌, Option, none, some, List, [], ◌∷◌, ◌++◌, map, ltb, ◌==◌,
  if◌then◌else◌, filter, find, sort,
}
use ovrflo.Prelude.Int.{ℤ, pos, ltb_ℤ, leb_ℤ, eqb_ℤ}
use ovrflo.Prelude.Text.{Text, lower, text_eq}
use ovrflo.Prelude.Errors.{Result, ok, err, ◌>>=◌, mixed_assets, conflicting_claim, incomplete_set}
use ovrflo.ClaimAll.Preflight.{text_before}

pub record PoolClaim : Type 0 where
  pub loan_id : ℤ
  pub claimable : ℤ

pub data QueuedTx : Type 0 where
  pool_claims : Text → List PoolClaim → Text → QueuedTx
  stream_claim : ℤ → ℤ → Text → QueuedTx

pub record PoolInput : Type 0 where
  pub lending : Text
  pub loan_id : ℤ
  pub claimable : ℤ
  pub asset : Text

pub record StreamInput : Type 0 where
  pub stream_id : ℤ
  pub withdrawable : ℤ
  pub asset : Text

pub record ClaimAllInput : Type 0 where
  pub pools : List PoolInput
  pub streams : List StreamInput

abbrev pub is_withdrawable : StreamInput → Bool
is_withdrawable s = ltb_ℤ (pos 0) s.withdrawable

pub claim_all_streams_from_complete_set : List StreamInput → Bool → Result (List StreamInput)
claim_all_streams_from_complete_set streams complete =
    if not complete then err incomplete_set else ok (filter is_withdrawable streams)

-- An entry of the map `byLending`.
pub record Entry : Type 0 where
  pub lending : Text
  pub claims : List PoolClaim
  pub asset : Text

abbrev pub Entries : Type 0
Entries = List (Text × Entry)

-- `byLending.get(key)`
abbrev pub entry_at : Text → Entries → Option Entry
entry_at key [] = none
entry_at key (e ∷ es) = if text_eq e.0 key then some e.1 else entry_at key es

-- `byLending.set(key, entry)`, which keeps the place of a key that is there.
abbrev pub set_entry : Text → Entry → Entries → Entries
set_entry key entry [] = (key, entry) ∷ []
set_entry key entry (e ∷ es) =
    if text_eq e.0 key then (e.0, entry) ∷ es else e ∷ set_entry key entry es

-- `byLending.get(key) ?? { … }`
abbrev pub entry_or_new : Option Entry → PoolInput → Entry
entry_or_new (some e) p = e
entry_or_new none p = record { lending = p.lending; claims = []; asset = p.asset }

abbrev pub with_claim : Entry → PoolInput → Entry
with_claim e p = record {
  lending = e.lending;
  claims = e.claims ++ record { loan_id = p.loan_id; claimable = p.claimable } ∷ [];
  asset = e.asset;
}

-- The pool's claim is added to its entry, unless the loan is there already.
abbrev pub add_claim : Entries → PoolInput → Entry → Option PoolClaim → Result Entries
add_claim es p e none = ok (set_entry (lower p.lending) (with_claim e p) es)
add_claim es p e (some duplicate) =
    if eqb_ℤ duplicate.claimable p.claimable then ok es else err conflicting_claim

-- The body of the loop over the pools.
unfoldable pub add_pool : Entries → PoolInput → Result Entries
add_pool es p =
    let e = entry_or_new (entry_at (lower p.lending) es) p in
    if leb_ℤ p.claimable (pos 0)
    then ok es
    else if not (text_eq (lower e.asset) (lower p.asset))
    then err mixed_assets
    else add_claim es p e (find (λ (c : PoolClaim). eqb_ℤ c.loan_id p.loan_id) e.claims)

unfoldable pub group_pools : Entries → List PoolInput → Result Entries
group_pools es [] = ok es
group_pools es (p ∷ ps) = add_pool es p >>= λ es'. group_pools es' ps

abbrev pub claim_before : PoolClaim → PoolClaim → Bool
claim_before a b = ltb_ℤ a.loan_id b.loan_id

abbrev pub stream_before : StreamInput → StreamInput → Bool
stream_before a b = ltb_ℤ a.stream_id b.stream_id

abbrev pub entry_before : Text × Entry → Text × Entry → Bool
entry_before a b = text_before a.0 b.0

abbrev pub pool_tx : Text × Entry → QueuedTx
pool_tx e = pool_claims e.1.lending (sort claim_before e.1.claims) e.1.asset

abbrev pub stream_tx : StreamInput → QueuedTx
stream_tx s = stream_claim s.stream_id s.withdrawable s.asset

unfoldable pub plan_claim_all : ClaimAllInput → Result (List QueuedTx)
plan_claim_all input = group_pools [] input.pools >>= λ entries. ok (
    map pool_tx (sort entry_before entries)
    ++ map stream_tx (sort stream_before (filter is_withdrawable input.streams)))
