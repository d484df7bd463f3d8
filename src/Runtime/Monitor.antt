-- ===== src/Runtime/Monitor.antt =====
-- What a run of web/lib/action-runtime.ts may call, told from what it has been answered so far, and
-- what a run is when a world answers its calls.
use Prim.Native.String.{String}
use ovrflo.Prelude.{
  ◌≡◌, Bool, true, false, ◌&&◌, Option, none, some, List, [], ◌∷◌, if◌then◌else◌, any,
}
use ovrflo.Prelude.Text.{Text}
use ovrflo.Action.{ActionIdentity, Authorization}
use ovrflo.Runtime.{
  returned, threw, ActionExecutionDraft, rebuilt, not_rebuilt, ActionExecutionResult, success,
  refresh_failed, review_needed, invalid, identity_changed, authorization_failed, simulation_failed,
  rejected, transport_failed, reverted, out_of_fuel, Call, get_identity, connect, rebuild,
  authorize, simulate, submit, wait_for_receipt, refresh, on_phase, Answer, Run, done, call,
  next_authorization, same_key, same_action_identity, is_same, comparison_threw, Awaited,
}
use ovrflo.Runtime.Execution.{material_review_matches}

-- What is known from the answers: whether the last identity read is the accepted one and nothing
-- but phases came after it; the draft that was rebuilt last, if it is the one that was reviewed;
-- what its simulation returned; what was authorized; and whether something was submitted.
pub record Known (R : Type 0) : Type 0 where
  pub seen : Bool
  pub draft : Option (ActionExecutionDraft R)
  pub simulated : Option R
  pub attempted : List Authorization
  pub submitted : Bool

abbrev pub nothing_known : {R : Type 0} → Known R
nothing_known = record {
  seen = false;
  draft = none;
  simulated = none;
  attempted = [];
  submitted = false;
}

module _ (same_address : Text → Text → Awaited Bool) (key_before : String → String → Bool)
    {R : Type 0} (plan : ActionExecutionDraft R) where
  -- The draft is of the accepted identity and has the review that was accepted.
  abbrev pub is_reviewed : ActionExecutionDraft R → Bool
  is_reviewed d =
      is_same (same_action_identity same_address plan.action.identity (some d.action.identity))
      && material_review_matches same_address key_before plan d

  abbrev pub see : Known R → Option ActionIdentity → Known R
  see m i = record {
    seen = is_same (same_action_identity same_address plan.action.identity i);
    draft = m.draft;
    simulated = m.simulated;
    attempted = m.attempted;
    submitted = m.submitted;
  }

  abbrev pub hold : Known R → Option (ActionExecutionDraft R) → Option R → Known R
  hold m d r = record {
    seen = false;
    draft = d;
    simulated = r;
    attempted = m.attempted;
    submitted = m.submitted;
  }

  abbrev pub learn : Known R → (c : Call R) → Answer c → Known R
  learn m get_identity (returned i) = see m i
  learn m get_identity (threw e) = hold m m.draft m.simulated
  learn m connect (returned i) = see m (some i)
  learn m connect (threw e) = hold m m.draft m.simulated
  learn m (rebuild i) (returned (rebuilt d)) = hold m (if is_reviewed d then some d else none) none
  learn m (rebuild i) (returned (not_rebuilt errors)) = hold m none none
  learn m (rebuild i) (threw e) = hold m none none
  learn m (authorize a i) answer = record {
    seen = false;
    draft = none;
    simulated = none;
    attempted = a ∷ m.attempted;
    submitted = m.submitted;
  }
  learn m (simulate r i) (returned s) = hold m m.draft (some s)
  learn m (simulate r i) (threw e) = hold m m.draft none
  learn m (submit r) answer = record {
    seen = false;
    draft = m.draft;
    simulated = none;
    attempted = m.attempted;
    submitted = true;
  }
  learn m (wait_for_receipt h) answer = m
  learn m (refresh rs i r) answer = m
  learn m (on_phase p) answer = m

  -- A wallet is asked for the next authorization of the reviewed draft, once for each key, and only
  -- right after the accepted identity was seen. Only the reviewed draft with no authorization left
  -- is simulated. Only what its simulation returned is submitted, once, right after the accepted
  -- identity was seen. Only after that are the draft's resources refreshed.
  abbrev pub Allowed : Known R → Call R → Type 0
  Allowed m (authorize a i) =
      (m.seen ≡ true)
      × (i ≡ plan.action.identity)
      × ((d : ActionExecutionDraft R) × (m.draft ≡ some d)
          × (is_reviewed d ≡ true)
          × (next_authorization d ≡ some a))
      × (any (same_key a) m.attempted ≡ false)
      × (m.submitted ≡ false)
  Allowed m (simulate r i) =
      (i ≡ plan.action.identity)
      × ((d : ActionExecutionDraft R) × (m.draft ≡ some d)
          × (is_reviewed d ≡ true)
          × (next_authorization d ≡ none)
          × (r ≡ d.request))
      × (m.submitted ≡ false)
  Allowed m (submit r) = (m.seen ≡ true) × (m.simulated ≡ some r) × (m.submitted ≡ false)
  Allowed m (refresh rs i r) =
      (i ≡ plan.action.identity)
      × ((d : ActionExecutionDraft R) × (m.draft ≡ some d) × (rs ≡ d.action.touched_resources))
      × (m.submitted ≡ true)
      × (r.is_success ≡ true)
  Allowed m (wait_for_receipt h) = m.submitted ≡ true
  Allowed m get_identity = m.submitted ≡ false
  Allowed m connect = m.submitted ≡ false
  Allowed m (rebuild i) = (i ≡ plan.action.identity) × (m.submitted ≡ false)
  Allowed m (on_phase p) = Unit

  -- What a result says of the calls before it.
  abbrev pub Fits : Known R → ActionExecutionResult R → Type 0
  Fits m (success r) =
      (m.submitted ≡ true) × (m.draft ≡ some r.draft) × (r.receipt.is_success ≡ true)
  Fits m (refresh_failed r e) =
      (m.submitted ≡ true) × (m.draft ≡ some r.draft) × (r.receipt.is_success ≡ true)
  Fits m (reverted h r) = (m.submitted ≡ true) × (r.is_success ≡ false)
  Fits m (review_needed d) = (m.submitted ≡ false) × (is_reviewed d ≡ false)
  Fits m (invalid errors) = m.submitted ≡ false
  Fits m identity_changed = (m.submitted ≡ false) × (m.seen ≡ false)
  Fits m (comparison_threw e) = (m.submitted ≡ false) × (m.seen ≡ false)
  Fits m (authorization_failed e) = m.submitted ≡ false
  Fits m (simulation_failed e) = m.submitted ≡ false
  Fits m (rejected e) = Unit
  Fits m (transport_failed e) = Unit
  Fits m out_of_fuel = m.submitted ≡ false

  -- Whatever is answered, the run makes only calls that are allowed.
  abbrev pub Conforms : Known R → Run R → Type 0
  Conforms m (done r) = Fits m r
  Conforms m (call c k) = Allowed m c × ((a : Answer c) → Conforms (learn m c a) (k a))

-- A call with its answer.
abbrev pub Event : Type 0 → Type 0
Event R = (c : Call R) × Answer c

-- The run in a world that answers: the calls with their answers, in order, and the result.
module _ {R W : Type 0} (respond : (c : Call R) → W → Answer c × W) where
  abbrev pub play : W → Run R → List (Event R) × ActionExecutionResult R
  play w (done r) = ([], r)
  play w (call c k) =
      let rest = play (respond c w).1 (k (respond c w).0) in ((c, (respond c w).0) ∷ rest.0, rest.1)

module _ (same_address : Text → Text → Awaited Bool) (key_before : String → String → Bool)
    {R : Type 0} (plan : ActionExecutionDraft R) where
  -- Every call of the sequence is allowed by what is known before it, and so is the result.
  abbrev pub IsSafe : Known R → List (Event R) → ActionExecutionResult R → Type 0
  IsSafe m [] r = Fits same_address key_before plan m r
  IsSafe m ((c, a) ∷ t) r =
      Allowed same_address key_before plan m c
      × IsSafe (learn same_address key_before plan m c a) t r

  pub Conforms-IsSafe :
      {W : Type 0} (respond : (c : Call R) → W → Answer c × W) (w : W) (m : Known R) (run : Run R)
      → Conforms same_address key_before plan m run
      → IsSafe m (play respond w run).0 (play respond w run).1
  Conforms-IsSafe respond w m (done r) h = h
  Conforms-IsSafe respond w m (call c k) h =
      (h.0, Conforms-IsSafe respond (respond c w).1 _ (k (respond c w).0) (h.1 (respond c w).0))
