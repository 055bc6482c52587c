-- ===== src/Saga/Creation.antt =====
-- A new saga passes the checks.
use new_humans.Prelude.{
  String, ◌≡◌, refl, subst, true, false, not, none, ok, fail_if, eq_refl, >>=-eq-ok, fail_if-eq-ok,
  ok_inj, invalid_saga_input,
}
use new_humans.Platform.{Platform}
use new_humans.Saga.Types.{
  SagaKind, contract_activation, contract_settlement, other_kind, pending_remote, Saga,
  primary_step_of, non_empty, non_empty_text, saga_operation_key,
}
use new_humans.Saga.Requests.{canonical_financial_request, digest_financial_request}
use new_humans.Saga.Normal.{Normal, Normal-of_ok, Normal-again}
use new_humans.Saga.Create.{SagaInput, is_kind, positive_version, create_saga}
use new_humans.Saga.Guards.{same_step, assert_primary, assert_saga_invariant}
use new_humans.Saga.Holds.{same_json_refl, Holds, invariant_of_Holds}

-- What a saga starts from.
pub record Created (p : Platform) (s : Saga) : Type 0 where
  pub known : is_kind s.kind ≡ true
  pub starts : s.state ≡ pending_remote
  pub step : s.primary_step ≡ primary_step_of s.kind
  pub key :
      saga_operation_key s.world_id s.business_attempt_id (primary_step_of s.kind)
      ≡ ok s.primary_operation_key
  pub normal : Normal p (primary_step_of s.kind) s.primary_request
  pub digest : digest_financial_request p s.primary_request ≡ ok s.primary_payload_digest
  pub no_result : s.primary_result ≡ none
  pub no_key : s.compensation_operation_key ≡ none
  pub no_refund : s.compensation_result ≡ none

is_kind_of_not : (k : SagaKind) → not (is_kind k) ≡ false → is_kind k ≡ true
is_kind_of_not contract_activation h = refl
is_kind_of_not contract_settlement h = refl
is_kind_of_not (other_kind t) h = cc

pub create_saga-Created :
    (p : Platform) (kind : SagaKind) (i : SagaInput) {s : Saga}
    → create_saga p kind i ≡ ok s
    → Created p s × (s.kind ≡ kind)
unfolding create_saga
create_saga-Created p kind i {s} h =
    let (_, known, h1) = >>=-eq-ok (fail_if (not (is_kind kind)) invalid_saga_input) _ h in
    let (saga_id, _, h2) = >>=-eq-ok (non_empty_text i.saga_id) _ h1 in
    let (world, _, h3) = >>=-eq-ok (non_empty_text i.world_id) _ h2 in
    let (contract, _, h4) = >>=-eq-ok (non_empty_text i.contract_id) _ h3 in
    let (attempt, _, h5) = >>=-eq-ok (non_empty_text i.business_attempt_id) _ h4 in
    let (version, _, h6) = >>=-eq-ok (positive_version i.contract_version) _ h5 in
    let (request, normal, h7) =
      >>=-eq-ok (canonical_financial_request p (primary_step_of kind) i.request) _ h6 in
    let (key, keyed, h8) =
      >>=-eq-ok (saga_operation_key world attempt (primary_step_of kind)) _ h7 in
    let (digest, digested, h9) = >>=-eq-ok (digest_financial_request p request) _ h8 in
    subst (λ (t : Saga). Created p t × (t.kind ≡ kind)) (ok_inj h9)
      (
        record {
          known = is_kind_of_not kind (fail_if-eq-ok _ _ known);
          starts = refl;
          step = refl;
          key = keyed;
          normal = Normal-of_ok p (primary_step_of kind) i.request request normal;
          digest = digested;
          no_result = refl;
          no_key = refl;
          no_refund = refl;
        },
        refl,
      )

same_primary_step : (k : SagaKind) → same_step (primary_step_of k) (primary_step_of k) ≡ true
unfolding primary_step_of
same_primary_step contract_activation = refl
same_primary_step contract_settlement = refl
same_primary_step (other_kind t) = refl

-- A key is made only of a non-empty attempt id.
non_empty_of_key :
    (w a : String) (k : SagaKind) {t : String}
    → saga_operation_key w a (primary_step_of k) ≡ ok t
    → non_empty a ≡ ok tt
unfolding saga_operation_key
non_empty_of_key w a k h =
    let (_, _, h1) = >>=-eq-ok (non_empty w) _ h in
    let (_, e, _) = >>=-eq-ok (non_empty a) _ h1 in e

pub Created-primary : (p : Platform) (s : Saga) → Created p s → assert_primary p s ≡ ok tt
unfolding assert_primary
Created-primary p s c =
    rw
      (
        c.known,
        c.starts,
        non_empty_of_key s.world_id s.business_attempt_id s.kind c.key,
        c.step,
        same_primary_step s.kind,
        c.key,
        eq_refl s.primary_operation_key,
        Normal-again p (primary_step_of s.kind) s.primary_request c.normal,
        same_json_refl s.primary_request,
        c.digest,
        eq_refl s.primary_payload_digest,
      )
      refl

pub Created-Holds : (p : Platform) (s : Saga) → Created p s → Holds p s
Created-Holds p s c = record {
  primary = Created-primary p s c;
  success = rw c.starts (λ e. cc);
  failure = rw c.starts (λ e. cc);
  compensation = rw c.starts refl;
  refunded = rw c.starts (λ e. cc);
  forward = rw c.starts (λ e. cc);
}

-- A saga that `createSaga` returns passes `assertSagaInvariant`.
pub create-invariant :
    (p : Platform) (kind : SagaKind) (i : SagaInput) {s : Saga}
    → create_saga p kind i ≡ ok s
    → assert_saga_invariant p s ≡ ok tt
create-invariant p kind i {s} h =
    invariant_of_Holds p s (Created-Holds p s (create_saga-Created p kind i h).0)
