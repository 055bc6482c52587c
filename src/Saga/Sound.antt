-- ===== src/Saga/Sound.antt =====
-- What holds of a saga that came about by the operations: more than `assertSagaInvariant` asks.
use new_humans.Prelude.{String, ◌≡◌, refl, Option, none, some, ok, arith, eq_refl}
use new_humans.Platform.{Platform}
use new_humans.Js.{get}
use new_humans.Saga.Types.{
  contract_activation, SagaState, pending_remote, remote_succeeded, completed, compensation_pending,
  compensated, reconciliation_required, other_state, release_escrow, Status, succeeded,
  FinancialResult, Saga, primary_step_of, saga_operation_key,
}
use new_humans.Saga.Requests.{digest_financial_request}
use new_humans.Saga.Normal.{Normal, Normal-again}
use new_humans.Saga.Guards.{assert_primary, assert_compensation, assert_saga_invariant}
use new_humans.Saga.Creation.{Created, Created-primary}
use new_humans.Saga.Holds.{same_json_refl, Holds, invariant_of_Holds}

-- A result with this status.
abbrev pub Has : Status → Option FinancialResult → Type 0
Has status o = (r : FinancialResult) × (o ≡ some r) × (r.status ≡ status)

-- A compensation: only of an activation, under the key of its step, for the contract, amount and
-- principal of the primary request.
pub record Compensates (p : Platform) (s : Saga) : Type 0 where
  pub activation : s.kind ≡ contract_activation
  pub key : String
  pub has_key : s.compensation_operation_key ≡ some key
  pub keyed : saga_operation_key s.world_id s.business_attempt_id release_escrow ≡ ok key
  pub normal : Normal p release_escrow s.compensation_request
  pub digest : String
  pub has_digest : s.compensation_payload_digest ≡ some digest
  pub digested : digest_financial_request p s.compensation_request ≡ ok digest
  pub same_principal :
      get "principal_ref" s.compensation_request ≡ get "principal_ref" s.primary_request
  pub same_amount :
      get "amount_micro_e" (get "payload" s.compensation_request)
      ≡ get "amount_micro_e" (get "payload" s.primary_request)
  pub same_contract :
      get "contract_ref" (get "payload" s.compensation_request)
      ≡ get "contract_ref" (get "payload" s.primary_request)

-- The results that each state rests on.
abbrev pub Evidence : SagaState → Platform → Saga → Type 0
Evidence pending_remote p s =
    (s.primary_result ≡ none)
    × (s.compensation_operation_key ≡ none)
    × (s.compensation_result ≡ none)
Evidence remote_succeeded p s =
    Has succeeded s.primary_result
    × (s.compensation_operation_key ≡ none)
    × (s.compensation_result ≡ none)
Evidence SagaState.failed p s =
    Has Status.failed s.primary_result
    × (s.compensation_operation_key ≡ none)
    × (s.compensation_result ≡ none)
Evidence completed p s =
    Has succeeded s.primary_result
    × (s.compensation_operation_key ≡ none)
    × (s.compensation_result ≡ none)
Evidence compensation_pending p s =
    Has succeeded s.primary_result × Compensates p s × (s.compensation_result ≡ none)
Evidence compensated p s =
    Has succeeded s.primary_result × Compensates p s × Has succeeded s.compensation_result
Evidence reconciliation_required p s =
    Has succeeded s.primary_result × Compensates p s × Has Status.failed s.compensation_result
Evidence (other_state t) p s = ⊥

pub record Sound (p : Platform) (s : Saga) : Type 0 where
  pub primary : assert_primary p s ≡ ok tt
  pub key :
      saga_operation_key s.world_id s.business_attempt_id (primary_step_of s.kind)
      ≡ ok s.primary_operation_key
  pub normal : Normal p (primary_step_of s.kind) s.primary_request
  pub digest : digest_financial_request p s.primary_request ≡ ok s.primary_payload_digest
  pub evidence : Evidence s.state p s

pub Created-Sound : (p : Platform) (s : Saga) → Created p s → Sound p s
Created-Sound p s c = record {
  primary = Created-primary p s c;
  key = c.key;
  normal = c.normal;
  digest = c.digest;
  evidence = rw c.starts (c.no_result, c.no_key, c.no_refund);
}

compensation_passes : (p : Platform) (s : Saga) → Compensates p s → assert_compensation p s ≡ ok tt
unfolding assert_compensation
compensation_passes p s c =
    rw
      (
        c.activation,
        c.keyed,
        c.has_key,
        eq_refl c.key,
        Normal-again p release_escrow s.compensation_request c.normal,
        same_json_refl s.compensation_request,
        c.digested,
        c.has_digest,
        eq_refl c.digest,
      )
      refl

Holds-at :
    (p : Platform) (s : Saga) (state : SagaState)
    → s.state ≡ state
    → assert_primary p s ≡ ok tt
    → Evidence state p s
    → Holds p s
Holds-at p s pending_remote e h v = record {
  primary = h;
  success = rw e (λ q. cc);
  failure = rw e (λ q. cc);
  compensation = rw e refl;
  refunded = rw e (λ q. cc);
  forward = rw e (λ q. cc);
}
Holds-at p s remote_succeeded e h v = record {
  primary = h;
  success = λ q. ground arith;
  failure = rw e (λ q. cc);
  compensation = rw e refl;
  refunded = rw e (λ q. cc);
  forward = rw e (λ q. cc);
}
Holds-at p s SagaState.failed e h v = record {
  primary = h;
  success = rw e (λ q. cc);
  failure = λ q. ground arith;
  compensation = rw e refl;
  refunded = rw e (λ q. cc);
  forward = rw e (λ q. cc);
}
Holds-at p s completed e h v = record {
  primary = h;
  success = λ q. ground arith;
  failure = rw e (λ q. cc);
  compensation = rw e refl;
  refunded = rw e (λ q. cc);
  forward = λ q r. ground arith;
}
Holds-at p s compensation_pending e h v = record {
  primary = h;
  success = λ q. ground arith;
  failure = rw e (λ q. cc);
  compensation = simp e (compensation_passes p s v.1);
  refunded = rw e (λ q. cc);
  forward = rw e (λ q. cc);
}
Holds-at p s compensated e h v = record {
  primary = h;
  success = λ q. ground arith;
  failure = rw e (λ q. cc);
  compensation = simp e (compensation_passes p s v.1);
  refunded = λ q. ground arith;
  forward = rw e (λ q. cc);
}
Holds-at p s reconciliation_required e h v = record {
  primary = h;
  success = λ q. ground arith;
  failure = rw e (λ q. cc);
  compensation = simp e (compensation_passes p s v.1);
  refunded = rw e (λ q. cc);
  forward = rw e (λ q. cc);
}
Holds-at p s (other_state t) e h v = absurd v

pub invariant_of_Sound : (p : Platform) (s : Saga) → Sound p s → assert_saga_invariant p s ≡ ok tt
invariant_of_Sound p s h = invariant_of_Holds p s (Holds-at p s s.state refl h.primary h.evidence)
