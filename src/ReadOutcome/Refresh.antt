-- ===== src/ReadOutcome/Refresh.antt =====
-- A failed refresh in web/lib/read-outcome.ts.
use text.Mathlib.Text.{◌==◌ as str_eq}
use text.Mathlib.TextPositions.{eq_refl}
use ovrflo.Prelude.{
  ℕ, zero, suc, ◌∙◌, ◌+◌, ◌-◌, ◌≤◌, ◌≡◌, refl, Bool, true, false, Option, none, some, List, [], ◌∷◌,
  ◌++◌, inl, inr, arith, length, drop, length-append, length-drop, Bool-cases, ◌==◌,
}
use ovrflo.Prelude.Errors.{ok, Returns}
use ovrflo.ReadOutcome.{
  ReadFailure, ReadOutcome, loading, ready, partial, unavailable, max_read_failures, same_failure,
  latest, is_latest, append_failure, slice_last, is_nil, partial_outcome, unavailable_outcome,
  refresh_failure_outcome, is_fresh_ready, option_eq, bool_eq,
}

option_eq_refl {ℓ} :
    {A : Type ℓ} (eq : A → A → Bool)
    → ((a : A) → eq a a ≡ true)
    → (o : Option A) → option_eq eq o o ≡ true
option_eq_refl eq h none = refl
option_eq_refl eq h (some a) = h a

nat_eq_refl : (n : ℕ) → (n == n) ≡ true
nat_eq_refl n = ground arith

bool_eq_refl : (b : Bool) → bool_eq b b ≡ true
bool_eq_refl true = refl
bool_eq_refl false = refl

same_failure_refl : (f : ReadFailure) → same_failure f f ≡ true
unfolding same_failure
same_failure_refl f = ground (
  arith,
  eq_refl f.source,
  eq_refl f.message,
  bool_eq_refl f.retryable,
  option_eq_refl ◌==◌ nat_eq_refl f.index,
  option_eq_refl str_eq eq_refl f.entity_id,
)

latest-append : (fs : List ReadFailure) (f : ReadFailure) → latest (fs ++ f ∷ []) ≡ some f
unfolding latest
latest-append [] f = refl
latest-append (g ∷ []) f = refl
latest-append (g ∷ h ∷ fs) f = latest-append (h ∷ fs) f

-- Dropping less than the whole list keeps its last entry.
latest-drop : (n : ℕ) (fs : List ReadFailure) → n + 1 ≤ length fs → latest (drop n fs) ≡ latest fs
unfolding latest
latest-drop zero fs h = refl
latest-drop (suc n) [] h = absurd (omega arith)
latest-drop (suc n) (f ∷ []) h = absurd (omega arith)
latest-drop (suc n) (f ∷ g ∷ fs) h = latest-drop n (g ∷ fs) (omega arith)

-- The failure, or one that reads the same, is the last of the list.
abbrev pub EndsWith : List ReadFailure → ReadFailure → Type 0
EndsWith fs f = is_latest (latest fs) f ≡ true

EndsWith-single : (f : ReadFailure) → EndsWith (f ∷ []) f
unfolding latest
EndsWith-single f = same_failure_refl f

EndsWith-nonempty : (fs : List ReadFailure) (f : ReadFailure) → EndsWith fs f → is_nil fs ≡ false
unfolding latest
EndsWith-nonempty [] f h = cc
EndsWith-nonempty (g ∷ fs) f h = refl

latest-sliced :
    (fs : List ReadFailure) (f : ReadFailure)
    → latest (slice_last max_read_failures (fs ++ f ∷ [])) ≡ some f
latest-sliced fs f =
    latest-drop (length (fs ++ f ∷ []) - 32) (fs ++ f ∷ [])
      (omega (arith, length-append fs (f ∷ [])))
    ∙ latest-append fs f

append_failure-EndsWith :
    (fs : List ReadFailure) (f : ReadFailure) → EndsWith (append_failure fs f) f
unfolding append_failure
append_failure-EndsWith fs f = elim (Bool-cases (is_latest (latest fs) f)) [
  | inl e ↦ rw e e
  | inr e ↦ rw (e, latest-sliced fs f) (same_failure_refl f)
]

length-append_failure :
    (fs : List ReadFailure) (f : ReadFailure) → length fs ≤ 32 → length (append_failure fs f) ≤ 32
unfolding append_failure
length-append_failure fs f h = elim (Bool-cases (is_latest (latest fs) f)) [
  | inl e ↦ rw e h
  | inr e ↦ rw e (omega (arith, length-drop (length (fs ++ f ∷ []) - 32) (fs ++ f ∷ [])))
]

module _ {ℓ} {T : Type ℓ} where
  abbrev pub failures_of : ReadOutcome T → List ReadFailure
  failures_of (loading t failures metadata) = failures
  failures_of (ready freshness t failures metadata) = failures
  failures_of (partial freshness t failures metadata) = failures
  failures_of (unavailable t failures metadata) = failures

  abbrev pub data_of : Option (ReadOutcome T) → Option T
  data_of none = none
  data_of (some (loading t failures metadata)) = t
  data_of (some (ready freshness t failures metadata)) = some t
  data_of (some (partial freshness t failures metadata)) = some t
  data_of (some (unavailable t failures metadata)) = t

  abbrev pub IsBounded : Option (ReadOutcome T) → Type 0
  IsBounded none = Unit
  IsBounded (some o) = length (failures_of o) ≤ 32

  -- After a failed refresh.
  abbrev pub Refreshed : Option (ReadOutcome T) → ReadFailure → ReadOutcome T → Type ℓ
  Refreshed previous f o =
      (is_fresh_ready o ≡ false)
      × (data_of (some o) ≡ data_of previous)
      × EndsWith (failures_of o) f
      × IsBounded (some o)

  -- A failed refresh always gives an outcome, from every earlier outcome or none. It is never
  -- fresh and ready, it keeps the data that was there, its last failure reads like the new one,
  -- and it holds at most 32 failures if the earlier one did.
  pub refresh_failure_lem :
      (previous : Option (ReadOutcome T)) (f : ReadFailure)
      → IsBounded previous
      → Returns (refresh_failure_outcome previous f) (Refreshed previous f)
  unfolding refresh_failure_outcome partial_outcome unavailable_outcome is_fresh_ready
  refresh_failure_lem none f h = (refl, refl, EndsWith-single f, omega arith)
  refresh_failure_lem (some (loading none failures metadata)) f h =
      (refl, refl, EndsWith-single f, omega arith)
  refresh_failure_lem (some (loading (some t) failures metadata)) f h =
      (refl, refl, EndsWith-single f, omega arith)
  refresh_failure_lem (some (ready freshness t failures metadata)) f h =
      ground (arith, append_failure-EndsWith failures f, length-append_failure failures f)
  refresh_failure_lem (some (partial freshness t failures metadata)) f h = ground (
    arith,
    append_failure-EndsWith failures f,
    EndsWith-nonempty (append_failure failures f) f,
    length-append_failure failures f,
  )
  refresh_failure_lem (some (unavailable t failures metadata)) f h = ground (
    arith,
    append_failure-EndsWith failures f,
    EndsWith-nonempty (append_failure failures f) f,
    length-append_failure failures f,
  )

  -- A refresh that fails again in the same way changes nothing.
  pub refresh_failure_twice :
      (previous : Option (ReadOutcome T)) (f : ReadFailure)
      → Returns
          (refresh_failure_outcome previous f)
          (λ o. refresh_failure_outcome (some o) f ≡ ok o)
  unfolding refresh_failure_outcome partial_outcome unavailable_outcome
  refresh_failure_twice none f = rw (EndsWith-single f) refl
  refresh_failure_twice (some (loading none failures metadata)) f = rw (EndsWith-single f) refl
  refresh_failure_twice (some (loading (some t) failures metadata)) f = rw (EndsWith-single f) refl
  refresh_failure_twice (some (ready freshness t failures metadata)) f =
      ground (arith, append_failure-EndsWith failures f)
  refresh_failure_twice (some (partial freshness t failures metadata)) f =
      ground
        (arith, append_failure-EndsWith failures f, EndsWith-nonempty (append_failure failures f) f)
  refresh_failure_twice (some (unavailable t failures metadata)) f =
      ground
        (arith, append_failure-EndsWith failures f, EndsWith-nonempty (append_failure failures f) f)
