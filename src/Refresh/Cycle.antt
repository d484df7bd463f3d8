-- ===== src/Refresh/Cycle.antt =====
-- One cycle of `refreshQueryResources` of web/lib/query-resource-registry.ts. The head, the refetching
-- and the hydration are what the node and the cache answer.
use ovrflo.Prelude.{
  ◌≡◌, ◌↔◌, refl, sym, ap, subst, ◌∙◌, Bool, true, false, ◌&&◌, Option, none, some, List, [], ◌∷◌,
  filter, All, arith, Bool-cases, inl, inr, if◌then◌else◌,
}
use ovrflo.Prelude.Int.{ℤ, ◌≤ℤ◌, leb_ℤ}
use ovrflo.ClaimAll.Preflight.{BlockIdentity}
use ovrflo.ReadOutcome.{ReadOutcome, is_fresh_ready}
use ovrflo.Runtime.{Failure, Awaited, returned, threw}
use ovrflo.Action.{ActionIdentity, TouchedResource}
use ovrflo.Action.Borrow.Reads.{metadata_of}
use ovrflo.Refresh.{
  QueryKey, wagmi_key, projection_key, book_key, other_key, outcome, other_data, QueryState,
  errored, holding, Query, plan_matches,
}

-- What a cycle throws: an error that another call threw, or one of its own two.
pub data RefreshError : Type 0 where
  passed_on : Failure → RefreshError
  resource_failed resource_not_fresh : RefreshError

pub data RefreshResult : Type 0 where
  refreshed : BlockIdentity → RefreshResult
  refresh_threw : RefreshError → RefreshResult

-- The block is there, and not before the head.
abbrev pub reaches : BlockIdentity → Option ℤ → Bool
reaches head none = false
reaches head (some block) = leb_ℤ head.number block

abbrev pub outcome_fault :
    {T : Type 0} → BlockIdentity → QueryKey → ReadOutcome T → Option RefreshError
outcome_fault head (projection_key key) o =
    if is_fresh_ready o && reaches head (metadata_of o).block_number
    then none
    else some resource_not_fresh
outcome_fault head (wagmi_key text) o = none
outcome_fault head (book_key root) o = none
outcome_fault head (other_key text) o = none

-- What a query that the plan matches stops the cycle with.
abbrev pub query_fault :
    {T : Type 0} → BlockIdentity → QueryKey → QueryState T → Option RefreshError
query_fault head key (errored none) = some resource_failed
query_fault head key (errored (some e)) = some (passed_on e)
query_fault head key (holding other_data) = none
query_fault head key (holding (outcome o)) = outcome_fault head key o

abbrev pub or_rest : Option RefreshError → RefreshResult → RefreshResult
or_rest none rest = rest
or_rest (some e) rest = refresh_threw e

unfoldable pub check_matched : {T : Type 0} → BlockIdentity → List (Query T) → RefreshResult
check_matched head [] = refreshed head
check_matched head (q ∷ queries) =
    or_rest (query_fault head q.query_key q.state) (check_matched head queries)

-- `Promise.all`, of answers in the order in which they arrive.
unfoldable pub after_all : List (Option Failure) → RefreshResult → RefreshResult
after_all [] rest = rest
after_all (none ∷ answers) rest = after_all answers rest
after_all (some e ∷ answers) rest = refresh_threw (passed_on e)

abbrev pub after_refetch : Option Failure → List (Option Failure) → RefreshResult → RefreshResult
after_refetch none hydrated rest = after_all hydrated rest
after_refetch (some e) hydrated rest = refresh_threw (passed_on e)

-- The failures are those that the refetching and the hydrations throw.
unfoldable pub refresh_query_resources :
    {T : Type 0}
    → List TouchedResource
    → ActionIdentity
    → Awaited BlockIdentity
    → Option Failure
    → List (Option Failure)
    → List (Query T)
    → RefreshResult
refresh_query_resources resources identity (threw e) refetched hydrated cache =
    refresh_threw (passed_on e)
refresh_query_resources {T} resources identity (returned head) refetched hydrated cache =
    after_refetch refetched hydrated (
      check_matched head
        (filter (λ (q : Query T). plan_matches resources identity q.query_key) cache))

reaches_iff :
    (head : BlockIdentity) (block : Option ℤ)
    → (reaches head block ≡ true) ↔ ((at : ℤ) × (block ≡ some at) × (head.number ≤ℤ at))
reaches_iff head none = (λ h. absurd (cc), λ (at, e, h). absurd (cc))
reaches_iff head (some block) = (
  λ h. (block, refl, ground arith),
  λ (at, e, h).
      let same : at ≡ block = cc in
      let bound : head.number ≤ℤ block = subst (λ b. head.number ≤ℤ b) same h in ground arith,
)

after_all-refreshed :
    (answers : List (Option Failure)) (rest : RefreshResult) (head : BlockIdentity)
    → (after_all answers rest ≡ refreshed head)
      ↔ (All (λ answer. answer ≡ none) answers × (rest ≡ refreshed head))
unfolding after_all
after_all-refreshed [] rest head = (λ h. (tt, h), λ h. h.1)
after_all-refreshed (none ∷ answers) rest head =
    let (to, from) = after_all-refreshed answers rest head in
    (λ h. ((refl, (to h).0), (to h).1), λ h. from (h.0.1, h.1))
after_all-refreshed (some e ∷ answers) rest head =
    (λ h. absurd (cc), λ h. absurd (let wrong : some e ≡ none = h.0.0 in cc))

or_rest-refreshed :
    (e : Option RefreshError) (rest : RefreshResult) (head : BlockIdentity)
    → (or_rest e rest ≡ refreshed head) ↔ ((e ≡ none) × (rest ≡ refreshed head))
or_rest-refreshed none rest head = (λ h. (refl, h), λ h. h.1)
or_rest-refreshed (some e) rest head =
    (λ h. absurd (cc), λ h. absurd (let wrong : some e ≡ none = h.0 in cc))

module _ {T : Type 0} where
  -- A projection's outcome is fresh and complete, of a block that is not before the head.
  abbrev pub IsThrough : BlockIdentity → QueryKey → ReadOutcome T → Type 0
  IsThrough head (projection_key key) o =
      (is_fresh_ready o ≡ true)
      × ((block : ℤ) × ((metadata_of o).block_number ≡ some block) × (head.number ≤ℤ block))
  IsThrough head (wagmi_key text) o = Unit
  IsThrough head (book_key root) o = Unit
  IsThrough head (other_key text) o = Unit

  abbrev pub IsCurrent : BlockIdentity → QueryKey → QueryState T → Type 0
  IsCurrent head key (errored e) = ⊥
  IsCurrent head key (holding other_data) = Unit
  IsCurrent head key (holding (outcome o)) = IsThrough head key o

  abbrev pub AllCurrent : BlockIdentity → List (Query T) → Type 0
  AllCurrent head = All (λ (q : Query T). IsCurrent head q.query_key q.state)

  outcome_fault_iff :
      (head : BlockIdentity) (key : QueryKey) (o : ReadOutcome T)
      → (outcome_fault head key o ≡ none) ↔ IsThrough head key o
  outcome_fault_iff head (projection_key key) o =
      let (to, from) = reaches_iff head (metadata_of o).block_number in
      elim (Bool-cases (is_fresh_ready o && reaches head (metadata_of o).block_number)) [
        | inl e ↦ rw e (
          λ h.
              let near : reaches head (metadata_of o).block_number ≡ true = ground arith in
              (ground arith, to near),
          λ h. refl,
        )
        | inr e ↦ rw e (
          λ h. absurd (cc),
          λ h.
              let near : reaches head (metadata_of o).block_number ≡ true = from h.1 in
              let fresh : is_fresh_ready o ≡ true = h.0 in absurd (ground arith),
        )
      ]
  outcome_fault_iff head (wagmi_key text) o = (λ h. tt, λ h. refl)
  outcome_fault_iff head (book_key root) o = (λ h. tt, λ h. refl)
  outcome_fault_iff head (other_key text) o = (λ h. tt, λ h. refl)

  query_fault_iff :
      (head : BlockIdentity) (key : QueryKey) (s : QueryState T)
      → (query_fault head key s ≡ none) ↔ IsCurrent head key s
  query_fault_iff head key (errored none) = (λ h. absurd (cc), λ h. absurd h)
  query_fault_iff head key (errored (some e)) = (λ h. absurd (cc), λ h. absurd h)
  query_fault_iff head key (holding other_data) = (λ h. tt, λ h. refl)
  query_fault_iff head key (holding (outcome o)) = outcome_fault_iff head key o

  check_matched-refreshed :
      (head : BlockIdentity) (queries : List (Query T))
      → (check_matched head queries ≡ refreshed head) ↔ AllCurrent head queries
  unfolding check_matched
  check_matched-refreshed head [] = (λ h. tt, λ h. refl)
  check_matched-refreshed head (q ∷ queries) =
      let (to, from) = check_matched-refreshed head queries in
      let (clear, fault) = query_fault_iff head q.query_key q.state in
      let (split, join) =
        or_rest-refreshed (query_fault head q.query_key q.state) (check_matched head queries)
          head in
      (λ h. (clear (split h).0, to (split h).1), λ h. join (fault h.0, from h.1))

  check_matched-head :
      (at head : BlockIdentity) (queries : List (Query T))
      → check_matched at queries ≡ refreshed head
      → at ≡ head
  unfolding check_matched
  check_matched-head at head [] h = cc
  check_matched-head at head (q ∷ queries) h =
      let clear = (or_rest-refreshed (query_fault at q.query_key q.state) _ head).0 h in
      check_matched-head at head queries clear.1

  -- What a cycle rests on when it reports the head.
  abbrev pub IsRefreshed :
      List TouchedResource
      → ActionIdentity
      → Awaited BlockIdentity
      → Option Failure
      → List (Option Failure)
      → List (Query T)
      → BlockIdentity
      → Type 0
  IsRefreshed resources identity captured refetched hydrated cache head =
      (captured ≡ returned head)
      × (refetched ≡ none)
      × All (λ answer. answer ≡ none) hydrated
      × AllCurrent head
          (filter (λ (q : Query T). plan_matches resources identity q.query_key) cache)

  -- A cycle reports a head exactly if that is the head it captured, neither the refetching nor any
  -- hydration threw, and no cached query that the plan of the touched resources matches is in
  -- error or holds a projection that is not fresh, complete and of a block from the head on.
  pub refresh_query_resources-IsRefreshed :
      (resources : List TouchedResource) (identity : ActionIdentity)
      (captured : Awaited BlockIdentity) (refetched : Option Failure)
      (hydrated : List (Option Failure)) (cache : List (Query T)) (head : BlockIdentity)
      → (refresh_query_resources resources identity captured refetched hydrated cache
          ≡ refreshed head)
        ↔ IsRefreshed resources identity captured refetched hydrated cache head
  unfolding refresh_query_resources
  refresh_query_resources-IsRefreshed resources identity (threw e) refetched hydrated cache head =
      (λ h. absurd (cc), λ h. absurd (let wrong : threw e ≡ returned head = h.0 in cc))
  refresh_query_resources-IsRefreshed resources identity (returned at) (some e) hydrated cache
        head =
      (λ h. absurd (cc), λ h. absurd (let wrong : some e ≡ none = h.1 in cc))
  refresh_query_resources-IsRefreshed resources identity (returned at) none hydrated cache head =
      let matched = filter (λ (q : Query T). plan_matches resources identity q.query_key) cache in
      let (split, join) = after_all-refreshed hydrated (check_matched at matched) head in
      (
        λ h.
            let same = check_matched-head at head matched (split h).1 in
            let current = (check_matched-refreshed at matched).0 in
            (
              ap returned same,
              refl,
              (split h).0,
              subst (λ x. AllCurrent x matched) same
                  (current ((split h).1 ∙ ap refreshed (sym same))),
            ),
        λ (captured_it, none_thrown, answered, current).
            let same : at ≡ head = cc in
            join (
              answered,
              (check_matched-refreshed at matched).1
                    (subst (λ x. AllCurrent x matched) (sym same) current)
                  ∙ ap refreshed same,
            ),
      )
