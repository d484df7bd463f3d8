-- ===== src/Tests/Runs.antt =====
-- The theorems about web/lib/action-runtime.ts and web/lib/actions/registry.ts at concrete inputs.
use Prim.Native.String.{String}
use text.Mathlib.Text.{◌==◌ as str_eq}
use ovrflo.Prelude.{
  ℕ, ◌+◌, ◌≡◌, refl, Bool, true, false, none, some, [], ◌∷◌, arith, Bool-cases, inl, inr, sym, ◌∙◌,
}
use ovrflo.Prelude.Int.{pos, leb_ℤ}
use ovrflo.Prelude.Text.{Text, lower, text_eq, text_eq_refl}
use ovrflo.Action.{
  ActionIdentity, Authorization, erc20_authorization, FinalCall, single, kind_lending, repay,
  FrozenReview, big_figure, at_loan,
}
use ovrflo.Action.Value.{no_values, value, big}
use ovrflo.Action.Review.{
  accepted, revalidate_review, all_read_again, revalidate_review-all_read_again,
}
use ovrflo.Runtime.{
  Awaited, ActionExecutionDraft, ReceiptResult, same_key, returned, rebuilt, Call, Answer,
}
use ovrflo.Runtime.Execution.{run_action_execution}
use ovrflo.Runtime.Retry.{
  IsRefreshOnly, retry_critical_refresh, retry_critical_refresh-IsRefreshOnly,
}
use ovrflo.Runtime.Monitor.{nothing_known, IsSafe, play}
use ovrflo.Runtime.Safety.{run_action_execution-IsSafe}
use ovrflo.Runtime.Ends.{IsListed, IsTame, IsOver, run_action_execution-IsOver}

abbrev same_address : Text → Text → Awaited Bool
same_address a b = returned (text_eq (lower a) (lower b))

abbrev key_before : String → String → Bool
key_before a b = str_eq a "a"

abbrev alice : ActionIdentity
alice = record { account = b'a' ∷ []; chain_id = 1 }

abbrev approval : ℕ → Authorization
approval allowance = erc20_authorization (b't' ∷ []) (b'l' ∷ []) (pos 5) (pos 5) (pos allowance)

abbrev repaying : FinalCall
repaying = single (record {
  target = b'l' ∷ [];
  contract = kind_lending;
  function_name = "repay";
  args = value (big (pos 7)) (value (big (pos 5)) no_values);
  value = pos 0;
})

abbrev review : ℕ → FrozenReview
review allowance = record {
  action_type = repay;
  title = "REPAY LOAN";
  identity = alice;
  call = repaying;
  authorizations = approval allowance ∷ [];
  route = none;
  economics = ("amount", big_figure (pos 5)) ∷ [];
}

abbrev draft : ℕ → ActionExecutionDraft ℕ
draft allowance = record {
  action = record {
    action_type = repay;
    identity = alice;
    preconditions = [];
    authorizations = approval allowance ∷ [];
    call = repaying;
    touched_resources = at_loan (b'l' ∷ []) (pos 7) ∷ [];
    review = review allowance;
    receipt_summary = record {
      source = b'l' ∷ [];
      event_name = some "Repaid";
      label = "REPAID";
      expected_ids = pos 7 ∷ [];
      expected_amounts = [];
    };
  };
  request = 40;
}

-- A wallet that signs everything; the world is the allowance.
abbrev respond : (c : Call ℕ) → ℕ → Answer c × ℕ
respond Call.get_identity w = (returned (some alice), w)
respond Call.connect w = (returned alice, w)
respond (Call.rebuild i) w = (returned (rebuilt (draft w)), w)
respond (Call.authorize a i) w =
    (returned (record { transaction_hash = []; is_success = true; block_number = pos 1 }), 5)
respond (Call.simulate r i) w = (returned (r + 1), w)
respond (Call.submit r) w = (returned (b'h' ∷ []), w)
respond (Call.wait_for_receipt h) w =
    (returned (record { transaction_hash = h; is_success = true; block_number = pos 2 }), w)
respond (Call.refresh rs i r) w = (returned tt, w)
respond (Call.on_phase p) w = (tt, w)

draft-IsListed : (w : ℕ) → IsListed (approval 0 ∷ []) (draft w)
unfolding erc20_authorization same_key
draft-IsListed w a h = elim (Bool-cases (leb_ℤ (pos 5) (pos w))) [
  | inl e ↦ let none_left : none ≡ some a = sym (rw e refl) ∙ h in absurd (cc)
  | inr e ↦
      let same : some (approval w) ≡ some a = sym (rw e refl) ∙ h in
      let place : approval w ≡ a = cc in
      rw (sym place, text_eq_refl (b't' ∷ []), text_eq_refl (b'l' ∷ [])) refl
]

respond-IsTame : (c : Call ℕ) (w : ℕ) → IsTame (approval 0 ∷ []) c (respond c w).0
respond-IsTame Call.get_identity w = tt
respond-IsTame Call.connect w = tt
respond-IsTame (Call.rebuild i) w = draft-IsListed w
respond-IsTame (Call.authorize a i) w = tt
respond-IsTame (Call.simulate r i) w = tt
respond-IsTame (Call.submit r) w = tt
respond-IsTame (Call.wait_for_receipt h) w = tt
respond-IsTame (Call.refresh rs i r) w = tt
respond-IsTame (Call.on_phase p) w = tt

run_action_execution-IsSafe_example :
    IsSafe same_address key_before
      (draft 0)
      nothing_known
      (play respond 0 (run_action_execution same_address key_before (draft 0) true 2)).0
      (play respond 0 (run_action_execution same_address key_before (draft 0) true 2)).1
run_action_execution-IsSafe_example =
    run_action_execution-IsSafe same_address key_before (draft 0) true respond 0 2

run_action_execution-IsOver_example :
    IsOver
      (approval 0 ∷ [])
      (play respond 0 (run_action_execution same_address key_before (draft 0) true 2)).1
run_action_execution-IsOver_example =
    run_action_execution-IsOver (approval 0 ∷ []) same_address key_before (draft 0) true respond
      respond-IsTame 0 2 (omega arith)

revalidate_review-all_read_again_example :
    revalidate_review key_before (review 0) (record {
      action_type = repay;
      title = "REPAY LOAN";
      identity = alice;
      call = repaying;
      authorizations = all_read_again ((pos 5, true) ∷ []) (approval 0 ∷ []);
      route = none;
      economics = ("amount", big_figure (pos 5)) ∷ [];
    })
    ≡ accepted
revalidate_review-all_read_again_example =
    revalidate_review-all_read_again key_before (review 0) ((pos 5, true) ∷ [])

abbrev earlier : ReceiptResult ℕ
earlier = record {
  hash = b'h' ∷ [];
  receipt = record { transaction_hash = b'h' ∷ []; is_success = true; block_number = pos 2 };
  draft = draft 5;
  identity = alice;
}

retry_critical_refresh-IsRefreshOnly_example :
    IsRefreshOnly same_address earlier false (retry_critical_refresh same_address earlier)
retry_critical_refresh-IsRefreshOnly_example =
    retry_critical_refresh-IsRefreshOnly same_address earlier
