-- ===== src/ClaimAll/Ready.antt =====
-- A preflight of web/lib/claim-all.ts that is ready, and a cache that mixes no snapshots.
use ovrflo.Prelude.{
  ◌≡◌, ◌≢◌, ◌⊎◌, refl, ap, ◌∙◌, inl, inr, Bool, true, false, not, ◌&&◌, ◌||◌, Option, none, some,
  ◌++◌, if◌then◌else◌, arith, Bool-cases,
}
use ovrflo.Prelude.Text.{Text}
use ovrflo.ClaimAll.Preflight.{
  PreflightSource, markets, streams, hydration, verifier, Candidates, PreflightCache, Evaluation,
  is_ready, is_fresh, is_verifier, merge_source, is_reusable, sources_of,
  merge_claim_all_preflight_cache, has, same_claim_all_candidates, fresh_candidates, matches_target,
}
use ovrflo.ReadOutcome.{ReadOutcome, is_fresh_ready}
use ovrflo.ClaimAll.Agreement.{has-append, has-normalized_candidates, same_claim_all_candidates-has}
use ovrflo.ClaimAll.Evaluate.{primary, verdict, all_match, evaluate_claim_all_preflight}

-- Each source of the preflight is a complete and fresh read of the target block.
abbrev pub Pinned : PreflightCache → PreflightSource → Type 0
Pinned cache s =
    (is_fresh (cache.sources s) ≡ true) × (matches_target (cache.sources s) cache.target ≡ true)

all_four :
    (p q r s : Bool) → (p && q && r && s) ≡ true → (p ≡ true) × (q ≡ true) × (r ≡ true) × (s ≡ true)
all_four p q r s h = ground arith

-- The last of seven verdicts is the one that allows a review.
last_verdict :
    (v m s h am sv sh : Bool) (a b c d e f last : Evaluation)
    → a.can_review ≡ false
    → b.can_review ≡ false
    → c.can_review ≡ false
    → d.can_review ≡ false
    → e.can_review ≡ false
    → f.can_review ≡ false
    → (if not v
        then a
        else if not m || not s
        then b
        else if not h
        then c
        else if not am
        then d
        else if not sv
        then e
        else if not sh
        then f
        else last).can_review
      ≡ true
    → (v ≡ true) × (m ≡ true) × (s ≡ true) × (h ≡ true) × (am ≡ true) × (sv ≡ true) × (sh ≡ true)
last_verdict v m s h am sv sh a b c d e f last p q r t u w x = ground arith

-- When a review is offered, the preflight is ready, all four sources are complete and
-- fresh reads of the target block, and the verifier and the hydration each hold the same candidates
-- as the markets and the streams together, which are the ones to review.
pub evaluate_claim_all_preflight-Pinned :
    (cache : PreflightCache)
    → (evaluate_claim_all_preflight cache).can_review ≡ true
    → ((evaluate_claim_all_preflight cache).status ≡ is_ready)
      × ((s : PreflightSource) → Pinned cache s)
      × ((c : Text)
          → (has c (evaluate_claim_all_preflight cache).candidate_ids ≡ (
              has c (fresh_candidates (cache.sources markets))
              || has c (fresh_candidates (cache.sources streams))))
            × (has c (evaluate_claim_all_preflight cache).candidate_ids
                ≡ has c (fresh_candidates (cache.sources verifier)))
            × (has c (evaluate_claim_all_preflight cache).candidate_ids
                ≡ has c (fresh_candidates (cache.sources hydration))))
unfolding evaluate_claim_all_preflight
evaluate_claim_all_preflight-Pinned cache h =
    let m = cache.sources markets in
    let s = cache.sources streams in
    let d = cache.sources hydration in
    let v = cache.sources verifier in
    let (fv, fm, fs, fd, am, sv, sd) =
      last_verdict (is_fresh v) (is_fresh m) (is_fresh s) (is_fresh d) (all_match cache)
        (same_claim_all_candidates (primary cache) (fresh_candidates v))
        (same_claim_all_candidates (primary cache) (fresh_candidates d)) _ _ _ _ _ _ _ refl refl
        refl refl refl refl h in
    let whole : evaluate_claim_all_preflight cache ≡ verdict cache is_ready true none =
      rw (fv, fm, fs, fd, am, sv, sd) refl in
    let (km, ks, kd, kv) =
      all_four (matches_target m cache.target) (matches_target s cache.target)
        (matches_target d cache.target) (matches_target v cache.target) am in
    (
      ap (λ (e : Evaluation). e.status) whole,
      λ w. elim w as (λ w. Pinned cache w) [
        | markets ↦ (fm, km)
        | streams ↦ (fs, ks)
        | hydration ↦ (fd, kd)
        | verifier ↦ (fv, kv)
      ],
      λ c.
          let ids : has c (evaluate_claim_all_preflight cache).candidate_ids
              ≡ has c (primary cache) =
            ap (λ (e : Evaluation). has c e.candidate_ids) whole in
          (
            ids
                ∙ has-normalized_candidates c (fresh_candidates m ++ fresh_candidates s)
                ∙ has-append c (fresh_candidates m) (fresh_candidates s),
            ids ∙ same_claim_all_candidates-has (primary cache) (fresh_candidates v) sv c,
            ids ∙ same_claim_all_candidates-has (primary cache) (fresh_candidates d) sd c,
          ),
    )

-- A merge keeps what was held of a source: the cache can be reused, and the attempt brings nothing of
-- the source, or brings no complete and fresh read of it where one was held, not of the verifier.
abbrev pub Keeps : Option PreflightCache → PreflightCache → PreflightSource → Type 0
Keeps previous attempt s =
    (is_reusable previous attempt ≡ true)
    × ((attempt.sources s ≡ none)
        ⊎ ((is_verifier s ≡ false)
            × (is_fresh (sources_of previous s) ≡ true)
            × (is_fresh (attempt.sources s) ≡ false)))

merge_source_cases :
    (s : PreflightSource) (cached next : Option (ReadOutcome Candidates))
    → (((next ≡ none)
          ⊎ ((is_verifier s ≡ false) × (is_fresh cached ≡ true) × (is_fresh next ≡ false)))
        × (merge_source s cached next ≡ cached))
      ⊎ (((next ≢ none)
            × ((is_verifier s ≡ true) ⊎ (is_fresh cached ≡ false) ⊎ (is_fresh next ≡ true)))
          × (merge_source s cached next ≡ next))
merge_source_cases s cached none = inl (inl refl, refl)
merge_source_cases s cached (some o) =
    elim (Bool-cases (not (is_verifier s) && is_fresh cached && not (is_fresh_ready o))) [
      | inl e ↦ rw e (inl (inr (ground arith, ground arith, ground arith), refl))
      | inr e ↦ rw e (inr ((λ h. cc, ground arith), refl))
    ]

dropped :
    (s : PreflightSource) (next : Option (ReadOutcome Candidates)) → merge_source s none next ≡ next
dropped s none = refl
dropped s (some o) = ground arith

-- A merge is of the attempt's account, chain and block and never mixes snapshots: of each source it
-- holds what was held before exactly if the account, the chain and the block are the same as before
-- and the attempt brings nothing, or no complete and fresh read where one was held, except for the
-- verifier; and otherwise it holds what the attempt brought.
pub merge_claim_all_preflight_cache_lem :
    (previous : Option PreflightCache) (attempt : PreflightCache) (s : PreflightSource)
    → let merged = merge_claim_all_preflight_cache previous attempt in
      (merged.identity ≡ attempt.identity)
      × (merged.target ≡ attempt.target)
      × ((Keeps previous attempt s × (merged.sources s ≡ sources_of previous s))
          ⊎ ((¬ Keeps previous attempt s) × (merged.sources s ≡ attempt.sources s)))
unfolding merge_claim_all_preflight_cache
merge_claim_all_preflight_cache_lem previous attempt s =
    elim (Bool-cases (is_reusable previous attempt)) [
      | inl e ↦ rw e (
        refl,
        refl,
        elim (merge_source_cases s (sources_of previous s) (attempt.sources s)) [
          | inl (kept, f) ↦ inl ((refl, kept), f)
          | inr ((brought, other), f) ↦
              inr (
                λ (_, k). elim k [ inl nothing ↦ brought nothing | inr (v, c, n) ↦ ground arith ],
                f,
              )
        ],
      )
      | inr e ↦ rw e (
        refl,
        refl,
        inr (λ h. absurd (let wrong : false ≡ true = h.0 in cc), dropped s (attempt.sources s)),
      )
    ]
