-- ===== src/Saga/Transitions.antt =====
-- The other operations of a saga: the local commit, the request for compensation, the commands
-- and the plan of reconciliation.
use new_humans.Prelude.{
  String, Bool, true, false, not, ◌||◌, ◌==◌, Option, none, some, Result, ok, err, fail_if, ◌>>=◌,
  ◌>>◌, invalid_saga_transition, settlement_compensation_forbidden, invalid_saga_state,
}
use new_humans.Platform.{Platform}
use new_humans.Js.{Value, undefined, string, object, Fields, end, field, get}
use new_humans.Idempotency.{kb_idempotency_contract_version}
use new_humans.EconomyPort.{economy_port_version, assert_economy_port_request}
use new_humans.Saga.Types.{
  SagaKind, contract_activation, SagaState, pending_remote, remote_succeeded, completed,
  compensation_pending, compensated, reconciliation_required, other_state, SagaStep, release_escrow,
  FinancialResult, Saga, non_empty, non_empty_text, saga_operation_key,
}
use new_humans.Saga.Requests.{canonical_financial_request, digest_financial_request, clone}
use new_humans.Saga.Create.{protocol_version}
use new_humans.Saga.Guards.{is_activation, has_succeeded, assert_saga_invariant}

abbrev pub is_remote_succeeded : SagaState → Bool
is_remote_succeeded remote_succeeded = true
is_remote_succeeded _ = false

abbrev pub expected_local_state : SagaKind → String
expected_local_state contract_activation = "ACTIVE"
expected_local_state _ = "SETTLED"

unfoldable pub mark_local_transition_committed : Platform → Saga → String → Result Saga
mark_local_transition_committed p s local_contract_state = do
  assert_saga_invariant p s
  fail_if (not (is_remote_succeeded s.state) || not (has_succeeded s.primary_result))
      invalid_saga_transition
  fail_if (not (local_contract_state == expected_local_state s.kind)) invalid_saga_transition
  ok (record s { state = completed })

-- `saga.primary_result.result_ref`, of a result that is there.
abbrev pub result_ref_of : Option FinancialResult → Value
result_ref_of none = undefined
result_ref_of (some r) = r.result_ref

abbrev pub compensation_payload : Saga → String → Value
compensation_payload s reason = object (
    field "contract_ref" (get "contract_ref" (get "payload" s.primary_request)) (
      field "amount_micro_e" (get "amount_micro_e" (get "payload" s.primary_request))
        (field "escrow_ref" (result_ref_of s.primary_result) (field "reason" (string reason) end))))

abbrev pub compensation_input : Saga → String → Value
compensation_input s reason = object (
    field "principal_ref" (get "principal_ref" s.primary_request)
      (field "payload" (compensation_payload s reason) end))

unfoldable pub request_activation_compensation : Platform → Saga → String → Result Saga
request_activation_compensation p s reason = do
  assert_saga_invariant p s
  fail_if (not (is_activation s.kind)) settlement_compensation_forbidden
  fail_if (not (is_remote_succeeded s.state) || not (has_succeeded s.primary_result))
      invalid_saga_transition
  non_empty reason
  request ← canonical_financial_request p release_escrow (compensation_input s reason)
  key ← saga_operation_key s.world_id s.business_attempt_id release_escrow
  digest ← digest_financial_request p request
  ok (record s {
    state = compensation_pending;
    compensation_operation_key = some key;
    compensation_payload_digest = some digest;
    compensation_request = request;
    compensation_reason = some reason;
  })

-- The constant fields of an intent (`capability`, `operation_class`, `operation`) are those of the
-- source.
pub record FinancialCommand : Type 0 where
  pub protocol_version : String
  pub economy_port_contract_version : String
  pub kb_idempotency_contract_version : String
  pub capability : String
  pub operation_class : String
  pub operation : String
  pub saga_step : SagaStep
  pub operation_key : String
  pub idempotency_key : String
  pub correlation_id : String
  pub principal_ref : Value
  pub payload_digest : String
  pub payload : Value

abbrev pub intent : String → String → SagaStep → Value → String → Value → FinancialCommand
intent key correlation step request digest payload = record {
  protocol_version = protocol_version;
  economy_port_contract_version = economy_port_version;
  kb_idempotency_contract_version = kb_idempotency_contract_version;
  capability = "economy";
  operation_class = "FUNDS_WRITE";
  operation = "escrow";
  saga_step = step;
  operation_key = key;
  idempotency_key = key;
  correlation_id = correlation;
  principal_ref = get "principal_ref" request;
  payload_digest = digest;
  payload = payload;
}

unfoldable pub expected_financial_intent :
    Platform → String → String → SagaStep → Value → Result FinancialCommand
expected_financial_intent p key correlation step request = do
  digest ← digest_financial_request p request
  payload ← clone p (get "payload" request)
  ok (intent key correlation step request digest payload)

abbrev pub key_or_empty : Option String → String
key_or_empty none = ""
key_or_empty (some k) = k

-- The command of a state, if it has one.
unfoldable pub command_of : Platform → SagaState → Saga → Result (Option FinancialCommand)
command_of p pending_remote s = do
  c ←
      expected_financial_intent p s.primary_operation_key s.business_attempt_id s.primary_step
        s.primary_request
  ok (some c)
command_of p compensation_pending s = do
  c ←
      expected_financial_intent p (key_or_empty s.compensation_operation_key) s.business_attempt_id
        release_escrow s.compensation_request
  ok (some c)
command_of p _ s = ok none

unfoldable pub build_financial_command : Platform → Saga → Result (Option FinancialCommand)
build_financial_command p s = do assert_saga_invariant p s; command_of p s.state s

pub data PlanAction : Type 0 where
  query_primary_then_retry_same_key commit_local_only revalidate_and_create_new_saga : PlanAction
  query_compensation_then_retry_same_key manual_reconciliation no_action : PlanAction

unfoldable pub plan_of : SagaState → Saga → Result (PlanAction × Option String)
plan_of pending_remote s = ok (query_primary_then_retry_same_key, some s.primary_operation_key)
plan_of remote_succeeded s = ok (commit_local_only, none)
plan_of SagaState.failed s = ok (revalidate_and_create_new_saga, none)
plan_of compensation_pending s =
    ok (query_compensation_then_retry_same_key, s.compensation_operation_key)
plan_of reconciliation_required s = ok (manual_reconciliation, s.compensation_operation_key)
plan_of completed s = ok (no_action, none)
plan_of compensated s = ok (no_action, none)
plan_of (other_state t) s = err invalid_saga_state

unfoldable pub reconciliation_plan : Platform → Saga → Result (PlanAction × Option String)
reconciliation_plan p s = do assert_saga_invariant p s; plan_of s.state s

-- A version that is left out is `undefined`.
abbrev version_field : Value → Fields → Fields
version_field undefined fs = fs
version_field v fs = field "expected_version" v fs

abbrev pub port_request : String → FinancialCommand → Value → Value → Value
port_request request_id c version payload = object (
    field "contract_version" (string economy_port_version) (
      field "operation" (string "escrow") (
        field "request_id" (string request_id) (
          field "idempotency_key" (string c.idempotency_key) (
            field "principal_ref" c.principal_ref
              (version_field version (field "payload" payload end)))))))

-- The envelope of a command, if there is one.
unfoldable pub envelope_of :
    Platform → String → Value → Option FinancialCommand → Result (Option Value)
envelope_of p request_id version none = ok none
envelope_of p request_id version (some c) = do
  payload ← clone p c.payload
  assert_economy_port_request p "escrow" (port_request request_id c version payload)
  ok (some (port_request request_id c version payload))

unfoldable pub build_economy_port_request : Platform → Saga → Value → Value → Result (Option Value)
build_economy_port_request p s request_id version = do
  id ← non_empty_text request_id
  command ← build_financial_command p s
  envelope_of p id version command
