-- ===== src/Saga/Reach.antt =====
-- The sagas that the operations make, and what every one of them keeps.
use new_humans.Prelude.{String, ◌≡◌, refl, sym, subst, Option, ok}
use new_humans.Platform.{Platform}
use new_humans.Js.{Value}
use new_humans.Saga.Types.{SagaKind, SagaState, FinancialResult, Saga}
use new_humans.Saga.Create.{SagaInput, create_saga}
use new_humans.Saga.Guards.{assert_saga_invariant}
use new_humans.Saga.Observe.{observe_financial_result}
use new_humans.Saga.Transitions.{mark_local_transition_committed, request_activation_compensation}
use new_humans.Saga.Creation.{create_saga-Created}
use new_humans.Saga.Inversion.{
  PrimaryObserved, CompensationObserved, Observed, commit-eq-ok, compensation-eq-ok, observe-eq-ok,
  observe_result-eq-ok,
}
use new_humans.Saga.Steps.{Observed-Sound, committed-Sound, requested-Sound}
use new_humans.Saga.Sound.{Evidence, Sound, Created-Sound, invariant_of_Sound}

module _ (p : Platform) where
  -- One successful operation.
  pub data Step : Saga → Saga → Type 0 where
    observes : {s t : Saga} (raw : Value) → observe_financial_result p s raw ≡ ok t → Step s t
    commits :
        {s t : Saga} (local : String) → mark_local_transition_committed p s local ≡ ok t → Step s t
    compensates :
        {s t : Saga} (reason : String)
        → request_activation_compensation p s reason ≡ ok t
        → Step s t

  pub data Reachable : Saga → Type 0 where
    creates :
        {s : Saga} (kind : SagaKind) (i : SagaInput) → create_saga p kind i ≡ ok s → Reachable s
    continues : {s t : Saga} → Reachable s → Step s t → Reachable t

  Step-Sound : {s t : Saga} → Step s t → Sound p s → Sound p t
  Step-Sound {s} (observes raw e) h =
      let (r, _, o) = observe_result-eq-ok p s raw e in
      Observed-Sound p s r h (observe-eq-ok p s r o)
  Step-Sound {s} (commits local e) h = committed-Sound p s local h e
  Step-Sound {s} (compensates reason e) h = requested-Sound p s reason h e

  pub Reachable-Sound : {s : Saga} → Reachable s → Sound p s
  Reachable-Sound {s} (creates kind i e) = Created-Sound p s (create_saga-Created p kind i e).0
  Reachable-Sound (continues r st) = Step-Sound st (Reachable-Sound r)

-- Every saga that `createSaga` and then the operations make, in any order and with any results,
-- passes `assertSagaInvariant`: no operation refuses it as INVALID_SAGA.
pub Reachable-invariant :
    (p : Platform) (s : Saga) → Reachable p s → assert_saga_invariant p s ≡ ok tt
Reachable-invariant p s r = invariant_of_Sound p s (Reachable-Sound p r)

-- The results that a reachable saga's state rests on: `Evidence` of the state, for every state.
-- A success is recorded in the states after the remote call, a failure in FAILED, a refund only
-- from COMPENSATION_PENDING on, for an activation, with the primary request's principal, contract
-- and amount.
pub Reachable-Evidence : (p : Platform) (s : Saga) → Reachable p s → Evidence s.state p s
Reachable-Evidence p s r = (Reachable-Sound p r).evidence

-- What no operation changes.
pub record SameIntent (s t : Saga) : Type 0 where
  pub saga_id : s.saga_id ≡ t.saga_id
  pub kind : s.kind ≡ t.kind
  pub world_id : s.world_id ≡ t.world_id
  pub contract_id : s.contract_id ≡ t.contract_id
  pub contract_version : s.contract_version ≡ t.contract_version
  pub business_attempt_id : s.business_attempt_id ≡ t.business_attempt_id
  pub primary_step : s.primary_step ≡ t.primary_step
  pub primary_operation_key : s.primary_operation_key ≡ t.primary_operation_key
  pub primary_payload_digest : s.primary_payload_digest ≡ t.primary_payload_digest
  pub primary_request : s.primary_request ≡ t.primary_request

same_intent : (s : Saga) → SameIntent s s
same_intent s = record {
  saga_id = refl;
  kind = refl;
  world_id = refl;
  contract_id = refl;
  contract_version = refl;
  business_attempt_id = refl;
  primary_step = refl;
  primary_operation_key = refl;
  primary_payload_digest = refl;
  primary_request = refl;
}

-- A change of the other fields.
SameIntent-with :
    (s : Saga) (state : SagaState) (r q : Option FinancialResult) (k d : Option String) (c : Value)
    (reason : Option String) {t : Saga}
    → t ≡ record s {
      state = state;
      primary_result = r;
      compensation_operation_key = k;
      compensation_payload_digest = d;
      compensation_request = c;
      compensation_result = q;
      compensation_reason = reason;
    }
    → SameIntent s t
SameIntent-with s state r q k d c reason e = subst (SameIntent s) (sym e) (record {
  saga_id = refl;
  kind = refl;
  world_id = refl;
  contract_id = refl;
  contract_version = refl;
  business_attempt_id = refl;
  primary_step = refl;
  primary_operation_key = refl;
  primary_payload_digest = refl;
  primary_request = refl;
})

module _ (s : Saga) (r : FinancialResult) where
  intent_primary : {t : Saga} → PrimaryObserved s r t → SameIntent s t
  intent_primary (PrimaryObserved.replayed old e same q) =
      subst (SameIntent s) (sym q) (same_intent s)
  intent_primary (PrimaryObserved.recorded e state q) = SameIntent-with s _ _ _ _ _ _ _ q

  intent_compensation : {t : Saga} → CompensationObserved s r t → SameIntent s t
  intent_compensation (CompensationObserved.replayed old e same q) =
      subst (SameIntent s) (sym q) (same_intent s)
  intent_compensation (CompensationObserved.recorded e state q) = SameIntent-with s _ _ _ _ _ _ _ q

  intent-Observed : (p : Platform) {t : Saga} → Observed p s r t → SameIntent s t
  intent-Observed p (Observed.primary k d o) = intent_primary o
  intent-Observed p (Observed.compensation other k present d o) = intent_compensation o

-- No operation changes the identity of a saga, its idempotency key, its digest or its request.
pub Step-SameIntent : (p : Platform) (s t : Saga) → Step p s t → SameIntent s t
Step-SameIntent p s t (observes raw e) =
    let (r, _, o) = observe_result-eq-ok p s raw e in intent-Observed s r p (observe-eq-ok p s r o)
Step-SameIntent p s t (commits local e) =
    let (_, _, q) = commit-eq-ok p s local e in SameIntent-with s _ _ _ _ _ _ _ q
Step-SameIntent p s t (compensates reason e) =
    SameIntent-with s _ _ _ _ _ _ _ (compensation-eq-ok p s reason e).result
