-- ===== src/ReadOutcome.antt =====
-- web/lib/read-outcome.ts: what a read of the chain has come to, and how a failed refresh changes
-- it. The type of the data is a parameter.
pub mod Refresh
use Prim.Native.String.{String}
use text.Mathlib.Text.{◌==◌ as str_eq}
use ovrflo.Prelude.{
  ℕ, ◌+◌, ◌-◌, Bool, true, false, ◌&&◌, Option, none, some, List, [], ◌∷◌, ◌++◌, ◌==◌, ltb,
  if◌then◌else◌, length, drop,
}
use ovrflo.Prelude.Int.{ℤ}
use ovrflo.Prelude.Text.{Text}
use ovrflo.Prelude.Errors.{Result, ok, err, no_failure_metadata}

pub data ReadFreshness : Type 0 where
  fresh stale : ReadFreshness

pub data ReadFailureCode : Type 0 where
  transport subcall incomplete cancelled fragmented invalid : ReadFailureCode

pub record ReadFailure : Type 0 where
  pub source : String
  pub code : ReadFailureCode
  pub message : String
  pub retryable : Bool
  pub index : Option ℕ
  pub entity_id : Option String

abbrev pub max_read_failures : ℕ
max_read_failures = 32

pub record ReadOutcomeMetadata : Type 0 where
  pub scope_key : Option String
  pub block_number : Option ℤ
  pub block_hash : Option Text
  pub block_timestamp : Option ℤ
  pub data_updated_at : Option ℕ

pub data ReadOutcome {ℓ} (T : Type ℓ) : Type ℓ where
  loading : Option T → List ReadFailure → ReadOutcomeMetadata → ReadOutcome T
  ready : ReadFreshness → T → List ReadFailure → ReadOutcomeMetadata → ReadOutcome T
  partial : ReadFreshness → T → List ReadFailure → ReadOutcomeMetadata → ReadOutcome T
  unavailable : Option T → List ReadFailure → ReadOutcomeMetadata → ReadOutcome T

abbrev code_index : ReadFailureCode → ℕ
code_index transport = 0
code_index subcall = 1
code_index incomplete = 2
code_index cancelled = 3
code_index fragmented = 4
code_index invalid = 5

abbrev bool_eq : Bool → Bool → Bool
bool_eq true b = b
bool_eq false true = false
bool_eq false false = true

abbrev option_eq {ℓ} : {A : Type ℓ} → (A → A → Bool) → Option A → Option A → Bool
option_eq eq none none = true
option_eq eq none (some b) = false
option_eq eq (some a) none = false
option_eq eq (some a) (some b) = eq a b

-- The condition of `appendFailure` on the latest failure.
pub same_failure : ReadFailure → ReadFailure → Bool
same_failure a b =
    str_eq a.source b.source
    && code_index a.code == code_index b.code
    && str_eq a.message b.message
    && bool_eq a.retryable b.retryable
    && option_eq ◌==◌ a.index b.index
    && option_eq str_eq a.entity_id b.entity_id

-- `failures.at(-1)`
pub latest : List ReadFailure → Option ReadFailure
latest [] = none
latest (f ∷ []) = some f
latest (f ∷ g ∷ fs) = latest (g ∷ fs)

abbrev pub is_latest : Option ReadFailure → ReadFailure → Bool
is_latest none f = false
is_latest (some g) f = same_failure g f

-- `xs.slice(-n)`
abbrev slice_last {ℓ} : {A : Type ℓ} → ℕ → List A → List A
slice_last n xs = drop (length xs - n) xs

append_failure : List ReadFailure → ReadFailure → List ReadFailure
append_failure failures f =
    if is_latest (latest failures) f
    then failures
    else slice_last max_read_failures (failures ++ f ∷ [])

abbrev is_stale : ReadFreshness → Bool
is_stale stale = true
is_stale fresh = false

abbrev is_nil {ℓ} : {A : Type ℓ} → List A → Bool
is_nil [] = true
is_nil (_ ∷ _) = false

abbrev pub no_metadata : ReadOutcomeMetadata
no_metadata = record {
  scope_key = none;
  block_number = none;
  block_hash = none;
  block_timestamp = none;
  data_updated_at = none;
}

module _ {ℓ} {T : Type ℓ} where
  pub partial_outcome :
      T → List ReadFailure → ReadOutcomeMetadata → ReadFreshness → Result (ReadOutcome T)
  partial_outcome t failures metadata freshness =
      if is_nil failures
      then err no_failure_metadata
      else ok (partial freshness t failures metadata)

  pub unavailable_outcome :
      List ReadFailure → ReadOutcomeMetadata → Option T → Result (ReadOutcome T)
  unavailable_outcome failures metadata t =
      if is_nil failures then err no_failure_metadata else ok (unavailable t failures metadata)

  -- `appendFailure` hands back the same array exactly if the latest failure is the same.
  pub refresh_failure_outcome : Option (ReadOutcome T) → ReadFailure → Result (ReadOutcome T)
  refresh_failure_outcome (some (ready freshness t failures metadata)) f =
      if is_stale freshness && is_latest (latest failures) f
      then ok (ready freshness t failures metadata)
      else ok (ready stale t (append_failure failures f) metadata)
  refresh_failure_outcome (some (partial freshness t failures metadata)) f =
      if is_stale freshness && is_latest (latest failures) f
      then ok (partial freshness t failures metadata)
      else partial_outcome t (append_failure failures f) metadata stale
  refresh_failure_outcome (some (loading (some t) failures metadata)) f =
      partial_outcome t (f ∷ []) metadata stale
  refresh_failure_outcome (some (loading none failures metadata)) f =
      unavailable_outcome (f ∷ []) metadata none
  refresh_failure_outcome (some (unavailable t failures metadata)) f =
      if is_latest (latest failures) f
      then ok (unavailable t failures metadata)
      else unavailable_outcome (append_failure failures f) metadata t
  refresh_failure_outcome none f = unavailable_outcome (f ∷ []) no_metadata none

  unfoldable pub is_fresh_ready : ReadOutcome T → Bool
  is_fresh_ready (ready fresh t failures metadata) = true
  is_fresh_ready (ready stale t failures metadata) = false
  is_fresh_ready (loading t failures metadata) = false
  is_fresh_ready (partial freshness t failures metadata) = false
  is_fresh_ready (unavailable t failures metadata) = false
