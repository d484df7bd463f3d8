-- ===== src/Action/Steps.antt =====
-- The early returns of the `build` functions under web/lib/actions, each before the rest of its
-- function. `invalid` is what a refusal comes to: `invalidAction`, or that as the value of a function
-- that can also throw.
use Prim.Native.String.{String}
use ovrflo.Prelude.{◌≡◌, refl, Bool, true, false, Option, none, some, List, [], ◌∷◌, if◌then◌else◌}
use ovrflo.Prelude.Int.{ℤ}
use ovrflo.Action.{ActionError, ActionErrorCode}
use ovrflo.Action.Amount.{ParsedAmount, parsed, refused}

module _ {R : Type 0} (invalid : List ActionError → R) where
  -- `if (refused) return invalidAction(actionError(code, message));`
  unfoldable pub refuse_if : Bool → ActionErrorCode → String → R → R
  refuse_if b code message rest =
      if b then invalid (record { code = code; message = message } ∷ []) else rest

  -- `if (!parsed.ok) return invalidAction(parsed.error);`
  unfoldable pub need_amount : ParsedAmount → (ℤ → R) → R
  need_amount (refused e) rest = invalid (e ∷ [])
  need_amount (parsed amount) rest = rest amount

  -- The check that a value is there, for the rest that uses it.
  unfoldable pub need : {A : Type 0} → Option A → ActionErrorCode → String → (A → R) → R
  need none code message rest = invalid (record { code = code; message = message } ∷ [])
  need (some a) code message rest = rest a

  -- A predicate of every refusal, and of what each step goes on to.
  module _ (Q : R → Type 0) (stopped : (errors : List ActionError) → Q (invalid errors)) where
    pub refuse_if_lem :
        (b : Bool) (code : ActionErrorCode) (message : String) (rest : R)
        → (b ≡ false → Q rest)
        → Q (refuse_if b code message rest)
    unfolding refuse_if
    refuse_if_lem true code message rest k = stopped _
    refuse_if_lem false code message rest k = k refl

    pub need_amount_lem :
        (p : ParsedAmount) (rest : ℤ → R)
        → ((amount : ℤ) → p ≡ parsed amount → Q (rest amount))
        → Q (need_amount p rest)
    unfolding need_amount
    need_amount_lem (refused e) rest k = stopped _
    need_amount_lem (parsed amount) rest k = k amount refl

    pub need_lem :
        {A : Type 0} (found : Option A) (code : ActionErrorCode) (message : String) (rest : A → R)
        → ((a : A) → found ≡ some a → Q (rest a))
        → Q (need found code message rest)
    unfolding need
    need_lem none code message rest k = stopped _
    need_lem (some a) code message rest k = k a refl
