-- ===== src/Runtime.antt =====
-- web/lib/action-runtime.ts: the run of one action. The runtime is not part of the program: a run is
-- a tree of the calls that it makes of the runtime, with a branch for each answer. viem's
-- `isAddressEqual` is the parameter `same_address`, and the request is of any type.
pub mod Execution
pub mod Monitor
pub mod Signing
pub mod Safety
pub mod Fuel
pub mod Ends
pub mod Retry
use Prim.Native.String.{String}
use ovrflo.Prelude.{
  refl, inr, inl, ◌⊎◌, ◌≡◌, ℕ, zero, suc, Bool, true, false, not, ◌&&◌, ◌||◌, Option, none, some,
  List, [], ◌∷◌, ◌==◌, if◌then◌else◌, find, any,
}
use ovrflo.Prelude.Int.{ℤ, eqb_ℤ}
use ovrflo.Prelude.Text.{Text, text_eq}
use ovrflo.Action.{
  ActionIdentity, ActionError, action_snapshot_mismatch, Authorization, erc20, erc721,
  TouchedResource, ReadyAction,
}
use ovrflo.Action.Review.{Revalidation, accepted, needs_review, revalidate_review}

-- What `isUserRejection` of web/lib/errors.ts reads of a thrown value: whether it is truthy, an
-- instance of viem's UserRejectedRequestError, or caused by one, and its code.
pub record Failure : Type 0 where
  pub is_truthy : Bool
  pub is_rejection : Bool
  pub has_rejection_cause : Bool
  pub code : Option ℕ

abbrev pub has_code : Option ℕ → ℕ → Bool
has_code none n = false
has_code (some m) n = m == n

pub is_user_rejection : Failure → Bool
is_user_rejection f =
    f.is_truthy && (f.is_rejection || f.has_rejection_cause || has_code f.code 4001)

-- An awaited call returns or throws.
pub data Awaited {ℓ} (A : Type ℓ) : Type ℓ where
  returned : A → Awaited A
  threw : Failure → Awaited A

pub record ActionExecutionDraft (R : Type 0) : Type 0 where
  pub action : ReadyAction
  pub request : R

pub data RebuildResult (R : Type 0) : Type 0 where
  rebuilt : ActionExecutionDraft R → RebuildResult R
  not_rebuilt : List ActionError → RebuildResult R

-- `logs` is of no concern here.
pub record ExecutionReceipt : Type 0 where
  pub transaction_hash : Text
  pub is_success : Bool
  pub block_number : ℤ

pub record ReceiptResult (R : Type 0) : Type 0 where
  pub hash : Text
  pub receipt : ExecutionReceipt
  pub draft : ActionExecutionDraft R
  pub identity : ActionIdentity

-- The loop over authorizations runs on fuel; `out_of_fuel` is the model's, and so is
-- `comparison_threw`, for a run whose promise is rejected by what a comparison of accounts throws.
pub data ActionExecutionResult (R : Type 0) : Type 0 where
  success : ReceiptResult R → ActionExecutionResult R
  refresh_failed : ReceiptResult R → Failure → ActionExecutionResult R
  review_needed : ActionExecutionDraft R → ActionExecutionResult R
  invalid : List ActionError → ActionExecutionResult R
  identity_changed : ActionExecutionResult R
  authorization_failed : Option Failure → ActionExecutionResult R
  simulation_failed rejected transport_failed : Failure → ActionExecutionResult R
  reverted : Text → ExecutionReceipt → ActionExecutionResult R
  comparison_threw : Failure → ActionExecutionResult R
  out_of_fuel : ActionExecutionResult R

pub data ExecutionPhase : Type 0 where
  connecting revalidating approving simulating signing confirming refreshing : ExecutionPhase

-- A call of the runtime, of `plan.rebuild`, or of the listener of phases.
pub data Call (R : Type 0) : Type 0 where
  get_identity connect : Call R
  rebuild : ActionIdentity → Call R
  authorize : Authorization → ActionIdentity → Call R
  simulate : R → ActionIdentity → Call R
  submit : R → Call R
  wait_for_receipt : Text → Call R
  refresh : List TouchedResource → ActionIdentity → ExecutionReceipt → Call R
  on_phase : ExecutionPhase → Call R

abbrev pub Answer : {R : Type 0} → Call R → Type 0
Answer get_identity = Awaited (Option ActionIdentity)
Answer connect = Awaited ActionIdentity
Answer {R} (rebuild i) = Awaited (RebuildResult R)
Answer (authorize a i) = Awaited ExecutionReceipt
Answer {R} (simulate r i) = Awaited R
Answer (submit r) = Awaited Text
Answer (wait_for_receipt h) = Awaited ExecutionReceipt
Answer (refresh rs i r) = Awaited (Unit {0})
Answer (on_phase p) = Unit {0}

pub data Run (R : Type 0) : Type 0 where
  done : ActionExecutionResult R → Run R
  call : (c : Call R) → (Answer c → Run R) → Run R

abbrev pub is_satisfied : Authorization → Bool
is_satisfied (erc20 a) = a.satisfied
is_satisfied (erc721 a) = a.satisfied

-- `authorizations.find((candidate) => !candidate.satisfied)`
abbrev pub next_authorization : {R : Type 0} → ActionExecutionDraft R → Option Authorization
next_authorization d = find (λ a. not (is_satisfied a)) d.action.authorizations

-- The two have the same key; an address holds no colon, so the parts of the key are compared.
unfoldable pub same_key : Authorization → Authorization → Bool
same_key (erc20 a) (erc20 b) =
    text_eq a.token b.token
    && text_eq a.spender b.spender
    && eqb_ℤ a.required_amount b.required_amount
    && eqb_ℤ a.approval_amount b.approval_amount
same_key (erc721 a) (erc721 b) =
    text_eq a.token b.token && text_eq a.spender b.spender && eqb_ℤ a.token_id b.token_id
same_key _ _ = false

-- The Error of an authorization that is still not satisfied.
abbrev pub unsatisfied : Failure
unsatisfied = record {
  is_truthy = true;
  is_rejection = false;
  has_rejection_cause = false;
  code = none;
}

abbrev pub snapshot_error : ActionError
snapshot_error = record {
  code = action_snapshot_mismatch;
  message = "Rebuilt action does not belong to the latched identity";
}

-- The comparison of two addresses by viem throws on a text that is no address.
module _ (same_address : Text → Text → Awaited Bool) where
  abbrev pub same_action_identity : ActionIdentity → Option ActionIdentity → Awaited Bool
  same_action_identity left none = returned false
  same_action_identity left (some right) =
      if left.chain_id == right.chain_id
      then same_address left.account right.account
      else returned false

-- `if (!sameActionIdentity(…))`, with what follows on each answer, and on a throw.
abbrev pub on_same {ℓ} : {A : Type ℓ} → Awaited Bool → A → A → (Failure → A) → A
on_same (threw e) same other thrown = thrown e
on_same (returned true) same other thrown = same
on_same (returned false) same other thrown = other

-- The comparison returned that the two are the same.
abbrev pub is_same : Awaited Bool → Bool
is_same (threw e) = false
is_same (returned b) = b

pub same_cases :
    (c : Awaited Bool)
    → (c ≡ returned true) ⊎ (c ≡ returned false) ⊎ ((e : Failure) × (c ≡ threw e))
same_cases (returned true) = inl refl
same_cases (returned false) = inr (inl refl)
same_cases (threw e) = inr (inr (e, refl))
