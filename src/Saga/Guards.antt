-- ===== src/Saga/Guards.antt =====
-- `assertSagaInvariant`, which every operation on a saga calls first.
use new_humans.Prelude.{
  String, Bool, true, false, not, ◌&&◌, ◌==◌, Option, none, some, Result, ok, fail_if, ◌>>=◌, ◌>>◌,
  invalid_saga,
}
use new_humans.Platform.{Platform}
use new_humans.Saga.Types.{
  SagaKind, contract_activation, contract_settlement, SagaState, remote_succeeded, completed,
  compensation_pending, compensated, reconciliation_required, other_state, SagaStep, fund_escrow,
  distribute_escrow, release_escrow, other_step, succeeded, FinancialResult, Saga, primary_step_of,
  non_empty, saga_operation_key,
}
use new_humans.Saga.Canonical.{same_json}
use new_humans.Saga.Requests.{canonical_financial_request, digest_financial_request}
use new_humans.Saga.Create.{is_kind}

abbrev pub is_state : SagaState → Bool
is_state (other_state s) = false
is_state _ = true

abbrev pub is_activation : SagaKind → Bool
is_activation contract_activation = true
is_activation _ = false

abbrev pub is_settlement : SagaKind → Bool
is_settlement contract_settlement = true
is_settlement _ = false

-- `a === b` of steps.
abbrev pub same_step : SagaStep → SagaStep → Bool
same_step fund_escrow fund_escrow = true
same_step distribute_escrow distribute_escrow = true
same_step release_escrow release_escrow = true
same_step (other_step s) (other_step t) = s == t
same_step _ _ = false

-- `k === s` of a key that may be `null`.
abbrev pub is_key : Option String → String → Bool
is_key none s = false
is_key (some t) s = t == s

-- A key counts as absent if it is `null` or empty.
abbrev pub has_key : Option String → Bool
has_key none = false
has_key (some t) = not (t == "")

abbrev pub has_succeeded : Option FinancialResult → Bool
has_succeeded none = false
has_succeeded (some r) = elim r.status [ succeeded ↦ true | _ ↦ false ]

abbrev pub has_failed : Option FinancialResult → Bool
has_failed none = false
has_failed (some r) = elim r.status [ succeeded ↦ false | _ ↦ true ]

-- The states after a confirmed remote success.
abbrev pub needs_success : SagaState → Bool
needs_success remote_succeeded = true
needs_success completed = true
needs_success compensation_pending = true
needs_success compensated = true
needs_success reconciliation_required = true
needs_success _ = false

abbrev pub is_compensating : SagaState → Bool
is_compensating compensation_pending = true
is_compensating compensated = true
is_compensating reconciliation_required = true
is_compensating _ = false

abbrev pub is_failed : SagaState → Bool
is_failed SagaState.failed = true
is_failed _ = false

abbrev pub is_compensated : SagaState → Bool
is_compensated compensated = true
is_compensated _ = false

abbrev pub is_completed : SagaState → Bool
is_completed completed = true
is_completed _ = false

-- The checks of the compensation, in the states that have one.
unfoldable pub assert_compensation : Platform → Saga → Result (Unit {0})
assert_compensation p s = do
  fail_if (not (is_activation s.kind)) invalid_saga
  key ← saga_operation_key s.world_id s.business_attempt_id release_escrow
  fail_if (not (is_key s.compensation_operation_key key)) invalid_saga
  normalized ← canonical_financial_request p release_escrow s.compensation_request
  fail_if (not (same_json normalized s.compensation_request)) invalid_saga
  digest ← digest_financial_request p s.compensation_request
  fail_if (not (is_key s.compensation_payload_digest digest)) invalid_saga

abbrev pub when : Bool → Result (Unit {0}) → Result (Unit {0})
when true r = r
when false r = ok tt

-- The checks of the primary operation.
unfoldable pub assert_primary : Platform → Saga → Result (Unit {0})
assert_primary p s = do
  fail_if (not (is_kind s.kind)) invalid_saga
  fail_if (not (is_state s.state)) invalid_saga
  non_empty s.business_attempt_id
  fail_if (not (same_step s.primary_step (primary_step_of s.kind))) invalid_saga
  key ← saga_operation_key s.world_id s.business_attempt_id (primary_step_of s.kind)
  fail_if (not (s.primary_operation_key == key)) invalid_saga
  normalized ← canonical_financial_request p (primary_step_of s.kind) s.primary_request
  fail_if (not (same_json normalized s.primary_request)) invalid_saga
  digest ← digest_financial_request p s.primary_request
  fail_if (not (digest == s.primary_payload_digest)) invalid_saga

unfoldable pub assert_saga_invariant : Platform → Saga → Result (Unit {0})
assert_saga_invariant p s = do
  assert_primary p s
  fail_if (needs_success s.state && not (has_succeeded s.primary_result)) invalid_saga
  fail_if (is_failed s.state && not (has_failed s.primary_result)) invalid_saga
  when (is_compensating s.state) (assert_compensation p s)
  fail_if (is_compensated s.state && not (has_succeeded s.compensation_result)) invalid_saga
  fail_if (is_completed s.state && is_settlement s.kind && has_key s.compensation_operation_key)
      invalid_saga
