-- ===== src/Tests/Claims.antt =====
-- The theorems about web/lib/claim-all.ts at concrete inputs.
use ovrflo.Prelude.{◌≡◌, ◌⊎◌, refl, true, ◌||◌, Option, none, some, [], ◌∷◌, All, sort, sort_from}
use ovrflo.Prelude.Int.{pos}
use ovrflo.Prelude.Errors.{IfReturns}
use ovrflo.Prelude.Text.{Text, text_eq, lower}
use ovrflo.ReadOutcome.{ReadOutcome, ReadOutcomeMetadata, fresh, ready, is_fresh_ready}
use ovrflo.ClaimAll.{ClaimAllInput, plan_claim_all}
use ovrflo.ClaimAll.Whole.{IsWhole, plan_claim_all-IsWhole}
use ovrflo.ClaimAll.Grouping.{IsClaim, plan_claim_all-IsClaim}
use ovrflo.ClaimAll.Preflight.{
  BlockIdentity, PreflightSource, markets, streams, hydration, verifier, Candidates, PreflightCache,
  is_ready, has, text_before, unique_from, normalized_candidates, source_matches_target, sources_of,
  fresh_candidates, same_claim_all_candidates, merge_claim_all_preflight_cache,
}
use ovrflo.ClaimAll.Evaluate.{evaluate_claim_all_preflight}
use ovrflo.ClaimAll.Agreement.{same_claim_all_candidates-has}
use ovrflo.ClaimAll.Ready.{
  Pinned, evaluate_claim_all_preflight-Pinned, Keeps, merge_claim_all_preflight_cache_lem,
}

abbrev lending : Text
lending = b'L' ∷ []

abbrev token : Text
token = b't' ∷ []

abbrev input : ClaimAllInput
input = record {
  pools =
      record { lending = lending; loan_id = pos 4; claimable = pos 9; asset = token }
      ∷ record { lending = b'l' ∷ []; loan_id = pos 2; claimable = pos 5; asset = token }
      ∷ record { lending = lending; loan_id = pos 3; claimable = pos 0; asset = token }
      ∷ [];
  streams = record { stream_id = pos 8; withdrawable = pos 6; asset = token } ∷ [];
}

plan_claim_all-IsClaim_example : IfReturns (plan_claim_all input) (All (IsClaim input))
plan_claim_all-IsClaim_example = plan_claim_all-IsClaim input

abbrev pool_text : Text
pool_text = b'p' ∷ b'4' ∷ []

abbrev stream_text : Text
stream_text = b's' ∷ b'8' ∷ []

same_two :
    same_claim_all_candidates
      (pool_text ∷ stream_text ∷ pool_text ∷ [])
      (stream_text ∷ pool_text ∷ [])
    ≡ true
unfolding same_claim_all_candidates normalized_candidates unique_from sort sort_from text_eq
    text_before
same_two = refl

same_claim_all_candidates-has_example :
    has pool_text (pool_text ∷ stream_text ∷ pool_text ∷ [])
    ≡ has pool_text (stream_text ∷ pool_text ∷ [])
same_claim_all_candidates-has_example =
    same_claim_all_candidates-has (pool_text ∷ stream_text ∷ pool_text ∷ [])
      (stream_text ∷ pool_text ∷ []) same_two pool_text

abbrev block : BlockIdentity
block = record { number = pos 100; hash = b'h' ∷ [] }

abbrev pinned : ReadOutcomeMetadata
pinned = record {
  scope_key = none;
  block_number = some (pos 100);
  block_hash = some (b'H' ∷ []);
  block_timestamp = none;
  data_updated_at = none;
}

abbrev read : Candidates → Option (ReadOutcome Candidates)
read cs = some (ready fresh cs [] pinned)

abbrev sources : PreflightSource → Option (ReadOutcome Candidates)
sources markets = read (pool_text ∷ [])
sources streams = read (stream_text ∷ [])
sources hydration = read (stream_text ∷ pool_text ∷ [])
sources verifier = read (pool_text ∷ stream_text ∷ [])

abbrev cache : PreflightCache
cache = record {
  identity = record { account = b'a' ∷ []; chain_id = 1 };
  target = block;
  sources = sources;
}

cache_ready : (evaluate_claim_all_preflight cache).can_review ≡ true
unfolding evaluate_claim_all_preflight same_claim_all_candidates normalized_candidates unique_from
    sort sort_from text_eq text_before is_fresh_ready source_matches_target lower
cache_ready = refl

evaluate_claim_all_preflight-Pinned_example :
    ((evaluate_claim_all_preflight cache).status ≡ is_ready)
    × ((s : PreflightSource) → Pinned cache s)
    × ((c : Text)
        → (has c (evaluate_claim_all_preflight cache).candidate_ids ≡ (
            has c (fresh_candidates (cache.sources markets))
            || has c (fresh_candidates (cache.sources streams))))
          × (has c (evaluate_claim_all_preflight cache).candidate_ids
              ≡ has c (fresh_candidates (cache.sources verifier)))
          × (has c (evaluate_claim_all_preflight cache).candidate_ids
              ≡ has c (fresh_candidates (cache.sources hydration))))
evaluate_claim_all_preflight-Pinned_example = evaluate_claim_all_preflight-Pinned cache cache_ready

merge_claim_all_preflight_cache_lem_example :
    let merged = merge_claim_all_preflight_cache (some cache) cache in
    (merged.identity ≡ cache.identity)
    × (merged.target ≡ cache.target)
    × ((Keeps (some cache) cache streams
          × (merged.sources streams ≡ sources_of (some cache) streams))
        ⊎ ((¬ Keeps (some cache) cache streams) × (merged.sources streams ≡ cache.sources streams)))
merge_claim_all_preflight_cache_lem_example =
    merge_claim_all_preflight_cache_lem (some cache) cache streams

plan_claim_all-IsWhole_example : IfReturns (plan_claim_all input) (IsWhole input)
plan_claim_all-IsWhole_example = plan_claim_all-IsWhole input
