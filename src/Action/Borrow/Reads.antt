-- ===== src/Action/Borrow/Reads.antt =====
-- The snapshot of web/lib/actions/borrow.ts: its four reads, whether they are of one block, and the
-- positions of the route's candidates.
use ovrflo.Prelude.{
  ℕ, Bool, true, false, ◌&&◌, ◌||◌, Option, none, some, List, [], ◌∷◌, map, any, all, if◌then◌else◌,
}
use ovrflo.Prelude.Int.{ℤ, eqb_ℤ}
use ovrflo.Prelude.Text.{Text, text_eq}
use ovrflo.ReadOutcome.{ReadOutcome, ReadOutcomeMetadata, ready, loading, partial, unavailable}
use ovrflo.Router.{LiquidityPosition}
use ovrflo.Action.{ActionIdentity}
use ovrflo.Action.Repay.{MarketActionContext, fresh_data}

pub record BorrowStreamState : Type 0 where
  pub stream_id : ℤ
  pub recipient : Text
  pub approved : Option Text
  pub approved_for_all : Bool
  pub eligible : Bool

pub record BorrowRoutingState : Type 0 where
  pub market : Text
  pub apr_bps : ℕ
  pub candidate_ids : List ℤ
  pub aggregate_depth : ℤ
  pub max_route_ids : ℕ

pub record BorrowQuoteState : Type 0 where
  pub market : Text
  pub stream_id : ℤ
  pub apr_bps : ℕ
  pub amount : ℤ
  pub actual_borrow : ℤ
  pub fee_amount : ℤ
  pub obligation : ℤ
  pub residual : ℤ
  pub min_acceptable : ℤ

-- The hydration is its positions.
pub record BorrowSnapshot : Type 0 where
  pub identity : ActionIdentity
  pub market : MarketActionContext
  pub stream : ReadOutcome BorrowStreamState
  pub routing : ReadOutcome BorrowRoutingState
  pub hydration : ReadOutcome (List LiquidityPosition)
  pub quote : ReadOutcome BorrowQuoteState

-- The data of the four reads.
pub record BorrowReads : Type 0 where
  pub stream : BorrowStreamState
  pub routing : BorrowRoutingState
  pub positions : List LiquidityPosition
  pub quote : BorrowQuoteState

abbrev pub metadata_of : {T : Type 0} → ReadOutcome T → ReadOutcomeMetadata
metadata_of (loading d failures m) = m
metadata_of (ready f d failures m) = m
metadata_of (partial f d failures m) = m
metadata_of (unavailable d failures m) = m

-- The metadata of the outcomes, in the order of `outcomes`.
abbrev pub borrow_metadata : BorrowSnapshot → List ReadOutcomeMetadata
borrow_metadata s =
    metadata_of s.stream
    ∷ metadata_of s.routing
    ∷ metadata_of s.hydration
    ∷ metadata_of s.quote
    ∷ []

-- `block !== undefined && block === blocks[0]`
abbrev pub is_block : Option ℤ → Option ℤ → Bool
is_block none b = false
is_block (some a) none = false
is_block (some a) (some b) = eqb_ℤ b a

abbrev pub head_of : List (Option ℤ) → Option ℤ
head_of [] = none
head_of (b ∷ bs) = b

abbrev pub first_defined : List (Option Text) → Option Text
first_defined [] = none
first_defined (none ∷ hs) = first_defined hs
first_defined (some h ∷ hs) = some h

abbrev pub is_hash : Text → Option Text → Bool
is_hash h none = false
is_hash h (some g) = text_eq g h

abbrev pub hashes_agree : Option Text → List (Option Text) → Bool
hashes_agree none hashes = true
hashes_agree (some h) hashes = all (is_hash h) hashes

unfoldable pub is_one_block : List ReadOutcomeMetadata → Bool
is_one_block ms =
    let blocks = map (λ (m : ReadOutcomeMetadata). m.block_number) ms in
    let hashes = map (λ (m : ReadOutcomeMetadata). m.block_hash) ms in
    all (is_block (head_of blocks)) blocks && hashes_agree (first_defined hashes) hashes

unfoldable pub has_coherent_block : BorrowSnapshot → Bool
has_coherent_block s = is_one_block (borrow_metadata s)

abbrev pub reads_of :
    Option BorrowStreamState
    → Option BorrowRoutingState
    → Option (List LiquidityPosition)
    → Option BorrowQuoteState
    → Option BorrowReads
reads_of none r h q = none
reads_of (some s) none h q = none
reads_of (some s) (some r) none q = none
reads_of (some s) (some r) (some h) none = none
reads_of (some s) (some r) (some h) (some q) =
    some (record { stream = s; routing = r; positions = h; quote = q })

-- The four reads, where all are fresh and ready.
unfoldable pub fresh_reads : BorrowSnapshot → Option BorrowReads
fresh_reads s =
    reads_of (fresh_data s.stream) (fresh_data s.routing) (fresh_data s.hydration)
      (fresh_data s.quote)

-- Whether a set of the identifiers is smaller than their list.
unfoldable pub has_repeats : List ℤ → Bool
has_repeats [] = false
has_repeats (id ∷ ids) = any (eqb_ℤ id) ids || has_repeats ids

abbrev pub last_found : Option LiquidityPosition → ℤ → LiquidityPosition → Option LiquidityPosition
last_found (some later) id p = some later
last_found none id p = if eqb_ℤ p.id id then some p else none

-- `positionsById.get(id)`: of positions with one identifier, the map keeps the last.
unfoldable pub position_by_id : List LiquidityPosition → ℤ → Option LiquidityPosition
position_by_id [] id = none
position_by_id (p ∷ ps) id = last_found (position_by_id ps id) id p

abbrev pub both_found :
    Option LiquidityPosition → Option (List LiquidityPosition) → Option (List LiquidityPosition)
both_found none rest = none
both_found (some p) none = none
both_found (some p) (some ps) = some (p ∷ ps)

-- The positions of the identifiers, unless the map lacks one of them.
unfoldable pub found_all : List LiquidityPosition → List ℤ → Option (List LiquidityPosition)
found_all positions [] = some []
found_all positions (id ∷ ids) = both_found (position_by_id positions id) (found_all positions ids)
