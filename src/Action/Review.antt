-- ===== src/Action/Review.antt =====
-- `revalidateReview` of web/lib/actions/registry.ts.
use Prim.Native.String.{String}
use ovrflo.Prelude.{◌≡◌, refl, Bool, Option, none, some, List, [], ◌∷◌, if◌then◌else◌}
use ovrflo.Prelude.Int.{ℤ}
use ovrflo.Action.{
  ActionType, supply, withdraw, claim_share, claim_position, deposit, claim_matured, wrap, unwrap,
  borrow, claim_stream, adjust_rate, repay, close, ActionIdentity, Authorization, erc20, erc721,
  ContractKind, kind_erc20, kind_ovrflo, kind_lending, kind_sablier, CallData, FinalCall,
  FinalCalls, single, batch, no_calls, next_call, FrozenRoute, Figure, big_figure, number_figure,
  text_figure, flag_figure, FrozenReview,
}
use ovrflo.Action.Value.{
  Value, Values, Fields, flag, number, big, string, address, array, object, no_values, value,
  no_fields, field, stable_value, same_json, same_json_refl,
}

pub action_name : ActionType → String
action_name supply = "supply"
action_name withdraw = "withdraw"
action_name claim_share = "claim_share"
action_name claim_position = "claim_position"
action_name deposit = "deposit"
action_name claim_matured = "claim_matured"
action_name wrap = "wrap"
action_name unwrap = "unwrap"
action_name borrow = "borrow"
action_name claim_stream = "claim_stream"
action_name adjust_rate = "adjust_rate"
action_name repay = "repay"
action_name close = "close"

contract_name : ContractKind → String
contract_name kind_erc20 = "erc20"
contract_name kind_ovrflo = "ovrflo"
contract_name kind_lending = "lending"
contract_name kind_sablier = "sablier"

material_authorization : Authorization → Value
material_authorization (erc20 a) = object (
    field "kind" (string "erc20") (
      field "token" (address a.token) (
        field "spender" (address a.spender) (
          field "requiredAmount" (big a.required_amount) (
            field "approvalAmount" (big a.approval_amount)
              (field "strategy" (string "optimistic-zero-first") no_fields))))))
material_authorization (erc721 a) = object (
    field "kind" (string "erc721") (
      field "token" (address a.token)
        (field "spender" (address a.spender) (field "tokenId" (big a.token_id) no_fields))))

-- The fields of a call, before the calls of a batch.
call_fields : CallData → Fields → Fields
call_fields c rest = field "target" (address c.target) (
    field "contract" (string (contract_name c.contract)) (
      field "functionName" (string c.function_name)
        (field "args" (array c.args) (field "value" (big c.value) rest))))

mutual
  call_value : FinalCall → Value
  call_value (single c) = object (call_fields c no_fields)
  call_value (batch c cs) =
      object (call_fields c (field "calls" (array (call_values cs)) no_fields))

  call_values : FinalCalls → Values
  call_values no_calls = no_values
  call_values (next_call c cs) = value (call_value c) (call_values cs)

abbrev values_of {ℓ} : {A : Type ℓ} → (A → Value) → List A → Values
values_of f [] = no_values
values_of f (x ∷ xs) = value (f x) (values_of f xs)

figure_value : Figure → Value
figure_value (big_figure z) = big z
figure_value (number_figure n) = number n
figure_value (text_figure t) = address t
figure_value (flag_figure b) = flag b

figure_fields : List (String × Figure) → Fields
figure_fields [] = no_fields
figure_fields ((k, v) ∷ fs) = field k (figure_value v) (figure_fields fs)

identity_value : ActionIdentity → Value
identity_value i =
    object (field "account" (address i.account) (field "chainId" (number i.chain_id) no_fields))

-- The route, if there is one, before the economics.
route_field : Option FrozenRoute → Fields → Fields
route_field none rest = rest
route_field (some r) rest =
    field "route"
      (object (
        field "ids" (array (values_of big r.ids)) (
          field "amounts" (array (values_of big r.amounts))
            (field "aprBps" (number r.apr_bps) no_fields))))
      rest

material_review : FrozenReview → Value
material_review r = object (
    field "actionType" (string (action_name r.action_type)) (
      field "title" (string r.title) (
        field "identity" (identity_value r.identity) (
          field "call" (call_value r.call) (
            field "authorizations" (array (values_of material_authorization r.authorizations)) (
              route_field r.route
                (field "economics" (object (figure_fields r.economics)) no_fields)))))))

pub data Revalidation : Type 0 where
  accepted : Revalidation
  needs_review : FrozenReview → Revalidation

module _ (key_before : String → String → Bool) where
  pub revalidate_review : FrozenReview → FrozenReview → Revalidation
  revalidate_review old rebuilt =
      if same_json (stable_value key_before (material_review old))
        (stable_value key_before (material_review rebuilt))
      then accepted
      else needs_review rebuilt

-- An authorization after its allowance was read again.
abbrev pub read_again : ℤ × Bool → Authorization → Authorization
read_again (allowance, granted) (erc20 a) = erc20 (record {
  token = a.token;
  spender = a.spender;
  required_amount = a.required_amount;
  approval_amount = a.approval_amount;
  current_allowance = allowance;
  satisfied = granted;
})
read_again (allowance, granted) (erc721 a) =
    erc721
      (record { token = a.token; spender = a.spender; token_id = a.token_id; satisfied = granted })

abbrev pub all_read_again : List (ℤ × Bool) → List Authorization → List Authorization
all_read_again (p ∷ ps) (a ∷ xs) = read_again p a ∷ all_read_again ps xs
all_read_again [] xs = xs
all_read_again (p ∷ ps) [] = []

material-read_again :
    (p : ℤ × Bool) (a : Authorization)
    → material_authorization (read_again p a) ≡ material_authorization a
unfolding material_authorization
material-read_again p (erc20 a) = refl
material-read_again p (erc721 a) = refl

values-all_read_again :
    (ps : List (ℤ × Bool)) (xs : List Authorization)
    → values_of material_authorization (all_read_again ps xs) ≡ values_of material_authorization xs
values-all_read_again [] xs = refl
values-all_read_again (p ∷ ps) [] = refl
values-all_read_again (p ∷ ps) (a ∷ xs) =
    rw (material-read_again p a, values-all_read_again ps xs) refl

-- Approvals need no second review: a review that was rebuilt with the same contents is accepted
-- whatever its authorizations' allowances have become, and whether they are satisfied by now.
pub revalidate_review-all_read_again :
    (key_before : String → String → Bool) (r : FrozenReview) (ps : List (ℤ × Bool))
    → revalidate_review key_before r (record {
      action_type = r.action_type;
      title = r.title;
      identity = r.identity;
      call = r.call;
      authorizations = all_read_again ps r.authorizations;
      route = r.route;
      economics = r.economics;
    })
      ≡ accepted
unfolding revalidate_review material_review
revalidate_review-all_read_again key_before r ps =
    rw
      (
        values-all_read_again ps r.authorizations,
        same_json_refl (stable_value key_before (material_review r)),
      )
      refl
