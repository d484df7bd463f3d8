-- ===== src/Refresh.antt =====
-- Which cached reads a touched resource makes stale, and what a refresh of them has to show:
-- web/lib/query-resource-registry.ts, and `invalidateTouchedResources` with `keyMentionsAny` of
-- web/lib/invalidate.ts. The JSON of a key is the platform's: the key of a read by wagmi is here its
-- text.
pub mod Targets
pub mod Cycle
pub mod Loans
pub mod Reads
use ovrflo.Prelude.{
  ℕ, ◌==◌, Bool, true, false, ◌&&◌, ◌||◌, Option, none, some, List, [], ◌∷◌, ◌++◌, map, any,
  if◌then◌else◌,
}
use ovrflo.Prelude.Int.{ℤ, ltb_ℤ}
use ovrflo.Prelude.Text.{Text, lower, text_eq}
use ovrflo.ReadOutcome.{ReadOutcome}
use ovrflo.Runtime.{Failure}
use ovrflo.Action.{
  ActionIdentity, TouchedResource, at_contract, at_market, at_market_depth, at_liquidity_position,
  at_loan, at_stream, at_nft_approval, at_token_balance, at_allowance,
}

pub data ProjectionKind : Type 0 where
  of_market_apr of_lender of_borrower of_demand of_stream of_claim_verifier : ProjectionKind

-- The parts of a projection's key that a selector reads.
pub record ProjectionKey : Type 0 where
  pub chain_id : ℕ
  pub lending : Option Text
  pub kind : ProjectionKind
  pub market : Option Text
  pub apr_bps : Option ℕ

pub data BookRoot : Type 0 where
  lender_book borrower_book stream_book protocol_bootstrap : BookRoot

pub data QueryKey : Type 0 where
  wagmi_key : Text → QueryKey
  projection_key : ProjectionKey → QueryKey
  book_key : BookRoot → QueryKey
  other_key : Text → QueryKey

-- A selector of projections. No selector names an account.
pub record ProjectionSelector : Type 0 where
  pub lending : Option Text
  pub kind : Option ProjectionKind
  pub market : Option Text
  pub apr_bps : Option ℕ

abbrev kind_index : ProjectionKind → ℕ
kind_index of_market_apr = 0
kind_index of_lender = 1
kind_index of_borrower = 2
kind_index of_demand = 3
kind_index of_stream = 4
kind_index of_claim_verifier = 5

-- All projections of the kind, of the lending contract if there is one.
abbrev of_kind : Option Text → ProjectionKind → ProjectionSelector
of_kind lending kind = record { lending = lending; kind = some kind; market = none; apr_bps = none }

unfoldable pub projection_selector : TouchedResource → List ProjectionSelector
projection_selector (at_contract address) = []
projection_selector (at_market vault market) = []
projection_selector (at_market_depth lending market apr_bps) =
    record {
      lending = some lending;
      kind = some of_market_apr;
      market = some market;
      apr_bps = apr_bps;
    }
    ∷ []
projection_selector (at_liquidity_position lending id) =
    record { lending = some lending; kind = none; market = none; apr_bps = none } ∷ []
projection_selector (at_loan lending id) =
    of_kind (some lending) of_lender
    ∷ of_kind (some lending) of_borrower
    ∷ of_kind (some lending) of_demand
    ∷ of_kind none of_stream
    ∷ []
projection_selector (at_stream sablier id) = of_kind none of_stream ∷ []
projection_selector (at_nft_approval token owner spender id) = []
projection_selector (at_token_balance token account) = []
projection_selector (at_allowance token owner spender) = []

unfoldable pub resource_contracts : TouchedResource → List Text
resource_contracts (at_contract address) = address ∷ []
resource_contracts (at_market vault market) = vault ∷ market ∷ []
resource_contracts (at_market_depth lending market apr_bps) = lending ∷ []
resource_contracts (at_liquidity_position lending id) = lending ∷ []
resource_contracts (at_loan lending id) = lending ∷ []
resource_contracts (at_stream sablier id) = sablier ∷ []
resource_contracts (at_nft_approval token owner spender id) = token ∷ []
resource_contracts (at_token_balance token account) = token ∷ []
resource_contracts (at_allowance token owner spender) = token ∷ []

-- `resources.flatMap(f)`
unfoldable pub flat_map {ℓ κ} : {A : Type ℓ} {B : Type κ} → (A → List B) → List A → List B
flat_map f [] = []
flat_map f (a ∷ rest) = f a ++ flat_map f rest

unfoldable pub touched_contracts : List TouchedResource → List Text
touched_contracts resources = map lower (flat_map resource_contracts resources)

-- `selected == null || part === lower(selected)`
abbrev pub same_place : Option Text → Option Text → Bool
same_place none part = true
same_place (some selected) none = false
same_place (some selected) (some part) = text_eq part (lower selected)

abbrev pub same_kind : Option ProjectionKind → ProjectionKind → Bool
same_kind none kind = true
same_kind (some selected) kind = kind_index kind == kind_index selected

-- A key without a rate is of the whole market.
abbrev pub same_rate : Option ℕ → Option ℕ → Bool
same_rate none rate = true
same_rate (some selected) none = true
same_rate (some selected) (some rate) = rate == selected

unfoldable pub selector_matches : ProjectionKey → ProjectionSelector → Bool
selector_matches key s =
    same_place s.lending key.lending
    && same_kind s.kind key.kind
    && same_place s.market key.market
    && same_rate s.apr_bps key.apr_bps

-- `text.includes(part)`
abbrev starts_with : Text → Text → Bool
starts_with text [] = true
starts_with [] (c ∷ part) = false
starts_with (d ∷ text) (c ∷ part) = d == c && starts_with text part

unfoldable pub includes : Text → Text → Bool
includes [] part = starts_with [] part
includes (c ∷ text) part = starts_with (c ∷ text) part || includes text part

unfoldable pub key_mentions_any : Text → List Text → Bool
key_mentions_any key addresses = any (includes (lower key)) addresses

unfoldable pub projection_matches : List TouchedResource → ActionIdentity → QueryKey → Bool
projection_matches resources identity (projection_key key) =
    key.chain_id == identity.chain_id
    && any (selector_matches key) (flat_map projection_selector resources)
projection_matches resources identity (wagmi_key text) = false
projection_matches resources identity (book_key root) = false
projection_matches resources identity (other_key text) = false

-- `buildRefreshPlan(resources, identity).matches`
unfoldable pub plan_matches : List TouchedResource → ActionIdentity → QueryKey → Bool
plan_matches resources identity (wagmi_key text) =
    key_mentions_any text (touched_contracts resources)
plan_matches resources identity (projection_key key) =
    projection_matches resources identity (projection_key key)
plan_matches resources identity (book_key root) =
    projection_matches resources identity (book_key root)
plan_matches resources identity (other_key text) =
    projection_matches resources identity (other_key text)

-- `invalidateTouchedResources`: the keys that it makes stale. The factory's address is of the
-- configuration.
abbrev is_pool : TouchedResource → Bool
is_pool (at_liquidity_position lending id) = true
is_pool (at_market_depth lending market apr_bps) = true
is_pool r = false

abbrev is_loan : TouchedResource → Bool
is_loan (at_loan lending id) = true
is_loan r = false

abbrev is_stream : TouchedResource → Bool
is_stream (at_stream sablier id) = true
is_stream (at_nft_approval token owner spender id) = true
is_stream r = false

unfoldable pub book_invalidated : Text → List TouchedResource → BookRoot → Bool
book_invalidated factory resources lender_book = any is_pool resources || any is_loan resources
book_invalidated factory resources borrower_book = any is_loan resources
book_invalidated factory resources stream_book = any is_stream resources
book_invalidated factory resources protocol_bootstrap =
    any (text_eq (lower factory)) (touched_contracts resources)

unfoldable pub is_invalidated : Text → List TouchedResource → QueryKey → Bool
is_invalidated factory resources (wagmi_key text) =
    key_mentions_any text (touched_contracts resources)
is_invalidated factory resources (book_key root) = book_invalidated factory resources root
is_invalidated factory resources (projection_key key) = false
is_invalidated factory resources (other_key text) = false

-- The addresses of a market's contracts that are there.
unfoldable pub market_contracts : Text → Option Text → Text → Text → Text → Text → List Text
market_contracts vault none underlying ovrflo_token pt_token stream =
    vault ∷ underlying ∷ ovrflo_token ∷ pt_token ∷ stream ∷ []
market_contracts vault (some lending) underlying ovrflo_token pt_token stream =
    vault ∷ lending ∷ underlying ∷ ovrflo_token ∷ pt_token ∷ stream ∷ []

module _ {ℓ} (T : Type ℓ) where
  pub data QueryData : Type ℓ where
    outcome : ReadOutcome T → QueryData
    other_data : QueryData

  pub data QueryState : Type ℓ where
    errored : Option Failure → QueryState
    holding : QueryData → QueryState

  pub record Query : Type ℓ where
    pub query_key : QueryKey
    pub state : QueryState
