-- ===== src/ClaimAll/Evaluate.antt =====
-- `evaluateClaimAllPreflight` of web/lib/claim-all.ts.
use ovrflo.Prelude.{
  Bool, true, false, not, ◌&&◌, ◌||◌, Option, none, some, ◌++◌, map, if◌then◌else◌,
}
use ovrflo.ClaimAll.Preflight.{
  markets, streams, hydration, verifier, preflight_sources, Candidates, PreflightCache,
  PreflightReason, discovery_incomplete, hydration_incomplete, verifier_unavailable,
  provider_disagreement, snapshot_mismatch, PreflightStatus, still_loading, blocked, is_ready,
  Evaluation, is_fresh, normalized_candidates, same_claim_all_candidates, preflight_progress,
  fresh_candidates, not_settled, matches_target,
}

module _ (cache : PreflightCache) where
  -- `primaryCandidates`
  abbrev pub primary : Candidates
  primary =
      normalized_candidates
        (fresh_candidates (cache.sources markets) ++ fresh_candidates (cache.sources streams))

  abbrev pub verdict : PreflightStatus → Bool → Option PreflightReason → Evaluation
  verdict status can_review reason = record {
    status = status;
    can_review = can_review;
    reason = reason;
    candidate_ids = primary;
    progress = map (λ s. preflight_progress s (cache.sources s)) preflight_sources;
  }

  abbrev pub waiting_or_blocked : Bool → PreflightStatus
  waiting_or_blocked b = if b then still_loading else blocked

  -- `[markets, streams, hydration, verifier].every((outcome) => sourceMatchesTarget(…))`
  abbrev pub all_match : Bool
  all_match =
      matches_target (cache.sources markets) cache.target
      && matches_target (cache.sources streams) cache.target
      && matches_target (cache.sources hydration) cache.target
      && matches_target (cache.sources verifier) cache.target

  unfoldable pub evaluate_claim_all_preflight : Evaluation
  evaluate_claim_all_preflight =
      let m = cache.sources markets in
      let s = cache.sources streams in
      let h = cache.sources hydration in
      let v = cache.sources verifier in
      if not (is_fresh v)
      then verdict (waiting_or_blocked (not_settled v)) false
          (some (if not_settled v then discovery_incomplete else verifier_unavailable))
      else if not (is_fresh m) || not (is_fresh s)
      then verdict (waiting_or_blocked (not_settled m || not_settled s)) false
          (some discovery_incomplete)
      else if not (is_fresh h)
      then verdict (waiting_or_blocked (not_settled h)) false (some hydration_incomplete)
      else if not all_match
      then verdict blocked false (some snapshot_mismatch)
      else if not (same_claim_all_candidates primary (fresh_candidates v))
      then verdict blocked false (some provider_disagreement)
      else if not (same_claim_all_candidates primary (fresh_candidates h))
      then verdict blocked false (some hydration_incomplete)
      else verdict is_ready true none
