-- ===== src/ClaimAll/Preflight.antt =====
-- The preflight of web/lib/claim-all.ts: the reads that a plan rests on, kept between attempts, and
-- whether they agree.
use ovrflo.Prelude.{
  ltb, Bool, true, false, not, ◌&&◌, ◌||◌, Option, none, some, List, [], ◌∷◌, ◌++◌, ◌==◌,
  if◌then◌else◌, length, any, sort,
}
use ovrflo.Prelude.Int.{ℤ, eqb_ℤ}
use ovrflo.Prelude.Text.{Text, lower, text_eq}
use ovrflo.Action.{ActionIdentity}
use ovrflo.ReadOutcome.{
  ReadFailure, ReadOutcome, ReadOutcomeMetadata, loading, ready, partial, unavailable,
  is_fresh_ready,
}

-- `BlockIdentity` of web/lib/discovery/types.ts.
pub record BlockIdentity : Type 0 where
  pub number : ℤ
  pub hash : Text

pub data PreflightSource : Type 0 where
  markets streams hydration verifier : PreflightSource

abbrev pub preflight_sources : List PreflightSource
preflight_sources = markets ∷ streams ∷ hydration ∷ verifier ∷ []

-- A candidate is its text, `pool:<lending>:<loan>` or `stream:<stream>`.
abbrev pub Candidates : Type 0
Candidates = List Text

abbrev pub Sources : Type 0
Sources = PreflightSource → Option (ReadOutcome Candidates)

-- `ClaimAllPreflightCache`, and `ClaimAllPreflightAttempt`, which has the same fields.
pub record PreflightCache : Type 0 where
  pub identity : ActionIdentity
  pub target : BlockIdentity
  pub sources : Sources

pub data ProgressStatus : Type 0 where
  waiting is_loading is_complete has_failed : ProgressStatus

-- The messages for the reader are left out.
pub record Progress : Type 0 where
  pub source : PreflightSource
  pub status : ProgressStatus
  pub retryable : Bool

pub data PreflightReason : Type 0 where
  discovery_incomplete hydration_incomplete verifier_unavailable : PreflightReason
  provider_disagreement snapshot_mismatch : PreflightReason

pub data PreflightStatus : Type 0 where
  still_loading blocked is_ready : PreflightStatus

pub record Evaluation : Type 0 where
  pub status : PreflightStatus
  pub can_review : Bool
  pub reason : Option PreflightReason
  pub candidate_ids : Candidates
  pub progress : List Progress

unfoldable pub same_identity : ActionIdentity → ActionIdentity → Bool
same_identity a b = a.chain_id == b.chain_id && text_eq (lower a.account) (lower b.account)

unfoldable pub same_block : BlockIdentity → BlockIdentity → Bool
same_block a b = eqb_ℤ a.number b.number && text_eq (lower a.hash) (lower b.hash)

abbrev pub is_verifier : PreflightSource → Bool
is_verifier verifier = true
is_verifier markets = false
is_verifier streams = false
is_verifier hydration = false

-- `outcome && isFreshReady(outcome)`
abbrev pub is_fresh : Option (ReadOutcome Candidates) → Bool
is_fresh none = false
is_fresh (some o) = is_fresh_ready o

-- What the cache holds of a source after an attempt: the completed read of the block stays.
abbrev pub merge_source :
    PreflightSource
    → Option (ReadOutcome Candidates)
    → Option (ReadOutcome Candidates)
    → Option (ReadOutcome Candidates)
merge_source s cached none = cached
merge_source s cached (some next) =
    if not (is_verifier s) && is_fresh cached && not (is_fresh_ready next)
    then cached
    else some next

abbrev pub is_reusable : Option PreflightCache → PreflightCache → Bool
is_reusable none attempt = false
is_reusable (some previous) attempt =
    same_identity previous.identity attempt.identity && same_block previous.target attempt.target

abbrev pub sources_of : Option PreflightCache → Sources
sources_of none s = none
sources_of (some previous) s = previous.sources s

unfoldable pub merge_claim_all_preflight_cache :
    Option PreflightCache → PreflightCache → PreflightCache
merge_claim_all_preflight_cache previous attempt = record {
  identity = attempt.identity;
  target = attempt.target;
  sources = λ s.
      merge_source s (if is_reusable previous attempt then sources_of previous s else none)
        (attempt.sources s);
}

-- The order of two texts by their codes.
unfoldable pub text_before : Text → Text → Bool
text_before [] [] = false
text_before [] (y ∷ ys) = true
text_before (x ∷ xs) [] = false
text_before (x ∷ xs) (y ∷ ys) = ltb x y || x == y && text_before xs ys

abbrev pub has : Text → Candidates → Bool
has c xs = any (text_eq c) xs

-- `[...new Set(candidates)]`
unfoldable pub unique_from : Candidates → Candidates → Candidates
unique_from seen [] = seen
unique_from seen (c ∷ cs) = unique_from (if has c seen then seen else seen ++ c ∷ []) cs

unfoldable pub normalized_candidates : Candidates → Candidates
normalized_candidates cs = sort text_before (unique_from [] cs)

-- `left.every((candidate, index) => candidate === right[index])`
abbrev pub same_places : Candidates → Candidates → Bool
same_places [] ys = true
same_places (x ∷ xs) [] = false
same_places (x ∷ xs) (y ∷ ys) = text_eq x y && same_places xs ys

unfoldable pub same_claim_all_candidates : Candidates → Candidates → Bool
same_claim_all_candidates left right =
    let l = normalized_candidates left in
    let r = normalized_candidates right in length l == length r && same_places l r

abbrev pub metadata_of : ReadOutcome Candidates → ReadOutcomeMetadata
metadata_of (loading t failures m) = m
metadata_of (ready freshness t failures m) = m
metadata_of (partial freshness t failures m) = m
metadata_of (unavailable t failures m) = m

abbrev number_matches : Option ℤ → ℤ → Bool
number_matches none n = false
number_matches (some m) n = eqb_ℤ m n

abbrev hash_matches : Option Text → Text → Bool
hash_matches none h = false
hash_matches (some g) h = text_eq (lower g) (lower h)

unfoldable pub source_matches_target : ReadOutcome Candidates → BlockIdentity → Bool
source_matches_target o target =
    number_matches (metadata_of o).block_number target.number
    && hash_matches (metadata_of o).block_hash target.hash

abbrev pub some_retryable : List ReadFailure → Bool
some_retryable = any (λ (f : ReadFailure). f.retryable)

pub preflight_progress : PreflightSource → Option (ReadOutcome Candidates) → Progress
preflight_progress s none = record { source = s; status = waiting; retryable = false }
preflight_progress s (some (loading t failures m)) = record {
  source = s;
  status = is_loading;
  retryable = false;
}
preflight_progress s (some (ready freshness t failures m)) =
    if is_fresh_ready (ready freshness t failures m)
    then record { source = s; status = is_complete; retryable = false }
    else record { source = s; status = has_failed; retryable = some_retryable failures }
preflight_progress s (some (partial freshness t failures m)) = record {
  source = s;
  status = has_failed;
  retryable = some_retryable failures;
}
preflight_progress s (some (unavailable t failures m)) = record {
  source = s;
  status = has_failed;
  retryable = some_retryable failures;
}

abbrev pub fresh_candidates : Option (ReadOutcome Candidates) → Candidates
fresh_candidates (some (ready freshness t failures m)) =
    if is_fresh_ready (ready freshness t failures m) then t else []
fresh_candidates (some (loading t failures m)) = []
fresh_candidates (some (partial freshness t failures m)) = []
fresh_candidates (some (unavailable t failures m)) = []
fresh_candidates none = []

-- `!outcome || outcome.status === "loading"`
abbrev pub not_settled : Option (ReadOutcome Candidates) → Bool
not_settled none = true
not_settled (some (loading t failures m)) = true
not_settled (some (ready freshness t failures m)) = false
not_settled (some (partial freshness t failures m)) = false
not_settled (some (unavailable t failures m)) = false

abbrev pub matches_target : Option (ReadOutcome Candidates) → BlockIdentity → Bool
matches_target none target = false
matches_target (some o) target = source_matches_target o target
