-- ===== src/Saga/Observe.antt =====
-- The financial results that a saga observes.
use new_humans.Prelude.{
  Bool, true, false, not, ◌||◌, ◌==◌, Option, none, some, Result, ok, err, fail_if, ◌>>=◌, ◌>>◌,
  if◌then◌else◌, invalid_saga_result, saga_idempotency_conflict, saga_result_conflict,
  invalid_saga_transition, unexpected_saga_operation,
}
use new_humans.Platform.{Platform}
use new_humans.Js.{Value, null, string, array, object, instance_of, get, or_else}
use new_humans.Saga.Types.{
  SagaState, pending_remote, remote_succeeded, compensation_pending, compensated,
  reconciliation_required, Status, succeeded, FinancialResult, result_value, Saga, non_empty_text,
}
use new_humans.Saga.Canonical.{same_json}
use new_humans.Saga.Guards.{is_key, has_key, assert_saga_invariant}

-- Truthy and `typeof 'object'`, which an array is too.
abbrev is_reference : Value → Bool
is_reference (object fs) = true
is_reference (instance_of fs) = true
is_reference (array xs) = true
is_reference _ = false

-- `['SUCCEEDED', 'FAILED'].includes(v)`, with the status.
unfoldable pub read_status : Value → Result Status
read_status (string s) =
    if s == "SUCCEEDED"
    then ok succeeded
    else if s == "FAILED"
    then ok Status.failed
    else err invalid_saga_result
read_status _ = err invalid_saga_result

check_result_ref : Status → Value → Result (Unit {0})
check_result_ref succeeded v = do ref ← non_empty_text v; ok tt
check_result_ref _ v = ok tt

unfoldable pub result_identity : Value → Result FinancialResult
unfolding check_result_ref read_status
result_identity raw = do
  fail_if (not (is_reference raw)) invalid_saga_result
  key ← non_empty_text (or_else (get "operation_key" raw) (get "idempotency_key" raw))
  digest ← non_empty_text (get "payload_digest" raw)
  status ← read_status (get "status" raw)
  check_result_ref status (get "result_ref" raw)
  ok (record {
    operation_key = key;
    payload_digest = digest;
    status = status;
    result_ref = or_else (get "result_ref" raw) null;
    error_code = or_else (get "error_code" raw) null;
  })

unfoldable pub same_result : FinancialResult → FinancialResult → Bool
unfolding result_value
same_result a b = same_json (result_value a) (result_value b)

abbrev pub is_pending_remote : SagaState → Bool
is_pending_remote pending_remote = true
is_pending_remote _ = false

abbrev pub is_compensation_pending : SagaState → Bool
is_compensation_pending compensation_pending = true
is_compensation_pending _ = false

abbrev pub after_primary : Status → SagaState
after_primary succeeded = remote_succeeded
after_primary _ = SagaState.failed

abbrev pub after_compensation : Status → SagaState
after_compensation succeeded = compensated
after_compensation _ = reconciliation_required

-- A second result has to be the first again; `else` is what the first one does.
abbrev pub replay_or : Option FinancialResult → FinancialResult → Saga → Result Saga → Result Saga
replay_or none r s else_ = else_
replay_or (some old) r s else_ = if not (same_result old r) then err saga_result_conflict else ok s

unfoldable pub observe_primary : Saga → FinancialResult → Result Saga
observe_primary s r = do
  fail_if (not (r.payload_digest == s.primary_payload_digest)) saga_idempotency_conflict
  replay_or s.primary_result r s (do
    fail_if (not (is_pending_remote s.state)) invalid_saga_transition
    ok (record s { state = after_primary r.status; primary_result = some r }))

unfoldable pub observe_compensation : Saga → FinancialResult → Result Saga
observe_compensation s r = do
  fail_if
      (not (has_key s.compensation_operation_key)
        || not (is_key s.compensation_payload_digest r.payload_digest))
      saga_idempotency_conflict
  replay_or s.compensation_result r s (do
    fail_if (not (is_compensation_pending s.state)) invalid_saga_transition
    ok (record s { state = after_compensation r.status; compensation_result = some r }))

-- The dispatch on the operation key.
unfoldable pub observe : Saga → FinancialResult → Result Saga
observe s r =
    if r.operation_key == s.primary_operation_key
    then observe_primary s r
    else if is_key s.compensation_operation_key r.operation_key
    then observe_compensation s r
    else err unexpected_saga_operation

unfoldable pub observe_financial_result : Platform → Saga → Value → Result Saga
observe_financial_result p s raw = do
  assert_saga_invariant p s
  r ← result_identity raw
  observe s r
