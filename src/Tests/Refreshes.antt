-- ===== src/Tests/Refreshes.antt =====
-- The theorems about pages of streams and about refreshing what was touched, at concrete inputs.
use Prim.Native.String.{String}
use ovrflo.Prelude.{◌≡◌, ◌↔◌, refl, Bool, true, none, some, List, [], ◌∷◌, arith}
use ovrflo.Prelude.Int.{ℤ, pos}
use ovrflo.Prelude.Text.{Text, lower, text_eq}
use ovrflo.Prelude.Errors.{ok}
use ovrflo.ClaimAll.Preflight.{BlockIdentity}
use ovrflo.ReadOutcome.{ReadOutcomeMetadata, fresh, ready, no_metadata}
use ovrflo.Runtime.{returned}
use ovrflo.Action.{
  ActionIdentity, ReadyAction, TouchedResource, at_stream, at_token_balance, single, claim_stream,
  ready_action, big_figure, built,
}
use ovrflo.Action.Value.{Values, no_values, value, big, address}
use ovrflo.Action.Repay.{Snapshot}
use ovrflo.Action.Steps.{need, refuse_if}
use ovrflo.Action.Claim.{StreamClaimState, sablier_call, build_stream_claim, stream_claim_action}
use ovrflo.Action.Registry.{build_action, claim_stream_intent, claim_stream_snapshot}
use ovrflo.Action.Borrow.Reads.{has_repeats}
use ovrflo.StreamBook.{fold_stream_ids}
use ovrflo.StreamBook.Folded.{rows_of, has_duplicate, fold_stream_ids-has_repeats}
use ovrflo.StreamBook.Paging.{Visited, IsInWindow, Visited-window_stop}
use ovrflo.Refresh.{
  of_stream, wagmi_key, projection_key, Query, outcome, other_data, holding, includes, plan_matches,
  is_invalidated,
}
use ovrflo.Refresh.Targets.{target_of}
use ovrflo.Refresh.Cycle.{
  refreshed, refresh_query_resources, IsRefreshed, refresh_query_resources-IsRefreshed,
}
use ovrflo.Refresh.Reads.{build_action-plan_matches}

-- The page size of the source, and the last row of 51.
Visited-window_stop_example :
    ((p : _) × Visited 25 51 p × IsInWindow 25 51 50 p)
    × ((p q : _)
        → Visited 25 51 p
        → Visited 25 51 q
        → IsInWindow 25 51 50 p
        → IsInWindow 25 51 50 q
        → p ≡ q)
Visited-window_stop_example = Visited-window_stop 25 51 50 (omega arith) (omega arith)

abbrev pages : List (List ℤ)
pages = (pos 4 ∷ pos 9 ∷ []) ∷ (pos 2 ∷ pos 4 ∷ []) ∷ []

fold_stream_ids-has_repeats_example :
    ((fold_stream_ids pages).ids ≡ rows_of pages)
    × (has_duplicate (fold_stream_ids pages).duplicate ≡ has_repeats (rows_of pages))
fold_stream_ids-has_repeats_example = fold_stream_ids-has_repeats pages

abbrev same_address : Text → Text → Bool
same_address a b = text_eq (lower a) (lower b)

abbrev is_address : Text → Bool
is_address t = true

abbrev parse_units : Text → ℤ
parse_units t = pos 0

abbrev encode : String → Values → Text
encode name args = []

abbrev alice : ActionIdentity
alice = record { account = b'a' ∷ []; chain_id = 1 }

abbrev sablier_text : Text
sablier_text = b'0' ∷ b'x' ∷ b'S' ∷ []

abbrev underlying_text : Text
underlying_text = b'0' ∷ b'x' ∷ b'U' ∷ []

abbrev snapshot : Snapshot StreamClaimState
snapshot = record {
  identity = alice;
  market = record {
    vault = b'v' ∷ [];
    lending = none;
    market = b'm' ∷ [];
    underlying = underlying_text;
    ovrflo_token = b't' ∷ [];
    pt_token = b'p' ∷ [];
    sablier = sablier_text;
    expiry = pos 900;
    now = pos 100;
  };
  state =
      ready fresh (record { stream_id = pos 8; recipient = b'A' ∷ []; withdrawable = pos 6 }) []
        no_metadata;
}

abbrev touched : List TouchedResource
touched = at_stream sablier_text (some (pos 8)) ∷ at_token_balance underlying_text (b'a' ∷ []) ∷ []

abbrev claimed : ReadyAction
claimed =
    let call = single (
      sablier_call sablier_text "withdrawMax"
        (value (big (pos 8)) (value (address (b'a' ∷ [])) no_values))) in
    record {
      action_type = claim_stream;
      identity = alice;
      preconditions = "fresh-stream" ∷ "stream-owned" ∷ "positive-withdrawable" ∷ [];
      authorizations = [];
      call = call;
      touched_resources = touched;
      review = record {
        action_type = claim_stream;
        title = "CLAIM STREAM";
        identity = alice;
        call = call;
        authorizations = [];
        route = none;
        economics = ("streamId", big_figure (pos 8)) ∷ ("withdrawable", big_figure (pos 6)) ∷ [];
      };
      receipt_summary = record {
        source = sablier_text;
        event_name = some "WithdrawFromLockupStream";
        label = "CLAIMED";
        expected_ids = pos 8 ∷ [];
        expected_amounts = ("withdrawable", pos 6) ∷ [];
      };
    }

claim_built :
    build_action is_address same_address parse_units encode
      (claim_stream_intent (pos 8))
      (claim_stream_snapshot snapshot)
    ≡ ok (built claimed)
unfolding build_action build_stream_claim stream_claim_action ready_action need refuse_if text_eq
    lower
claim_built = refl

-- The text of a read of the stream contract, in lower case.
abbrev key : Text
key = b'[' ∷ b'0' ∷ b'x' ∷ b's' ∷ b']' ∷ []

key_mentions : includes (lower key) (lower (target_of claimed.call)) ≡ true
unfolding includes lower
key_mentions = refl

build_action-plan_matches_example :
    (plan_matches claimed.touched_resources alice (wagmi_key key) ≡ true)
    × (is_invalidated (b'f' ∷ []) claimed.touched_resources (wagmi_key key) ≡ true)
build_action-plan_matches_example =
    build_action-plan_matches is_address same_address parse_units encode
      (claim_stream_intent (pos 8)) (claim_stream_snapshot snapshot) claimed alice (b'f' ∷ []) key
      claim_built key_mentions

abbrev head : BlockIdentity
head = record { number = pos 20; hash = b'h' ∷ [] }

abbrev at_block : ReadOutcomeMetadata
at_block = record {
  scope_key = none;
  block_number = some (pos 21);
  block_hash = none;
  block_timestamp = none;
  data_updated_at = none;
}

-- A projection of streams, and a read of another contract.
abbrev cache : List (Query ℤ)
cache =
    record {
      query_key = projection_key (record {
        chain_id = 1;
        lending = none;
        kind = of_stream;
        market = none;
        apr_bps = none;
      });
      state = holding (outcome (ready fresh (pos 3) [] at_block));
    }
    ∷ record { query_key = wagmi_key (b'z' ∷ []); state = holding other_data }
    ∷ []

refresh_query_resources-IsRefreshed_example :
    (refresh_query_resources touched alice (returned head) none (none ∷ none ∷ []) cache
      ≡ refreshed head)
    ↔ IsRefreshed touched alice (returned head) none (none ∷ none ∷ []) cache head
refresh_query_resources-IsRefreshed_example =
    refresh_query_resources-IsRefreshed touched alice (returned head) none (none ∷ none ∷ []) cache
      head
