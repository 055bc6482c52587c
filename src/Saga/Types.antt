-- ===== src/Saga/Types.antt =====
-- The states, the record and the keys of a saga. A kind, state or step that is in no table of the
-- source is an `other_…` with its text.
use new_humans.Prelude.{
  String, Option, none, some, ◌==◌, Result, ok, err, fail_if, ◌>>◌, invalid_saga_input,
  if◌then◌else◌,
}
use new_humans.Prelude.Int.{ℤ}
use new_humans.Js.{Value, string, object, end, field}
use new_humans.Js.Text.{encode_uri_component}
use new_humans.Js.Json.{◌<>◌}

pub data SagaKind : Type 0 where
  contract_activation contract_settlement : SagaKind
  other_kind : String → SagaKind

pub data SagaState : Type 0 where
  pending_remote remote_succeeded failed completed compensation_pending compensated : SagaState
  reconciliation_required : SagaState
  other_state : String → SagaState

pub data SagaStep : Type 0 where
  fund_escrow distribute_escrow release_escrow : SagaStep
  other_step : String → SagaStep

unfoldable pub step_text : SagaStep → String
step_text fund_escrow = "FUND_ESCROW"
step_text distribute_escrow = "DISTRIBUTE_ESCROW"
step_text release_escrow = "RELEASE_ESCROW"
step_text (other_step s) = s

-- `PRIMARY_STEP[kind]`; `undefined` is no step's text.
unfoldable pub primary_step_of : SagaKind → SagaStep
primary_step_of contract_activation = fund_escrow
primary_step_of contract_settlement = distribute_escrow
primary_step_of (other_kind s) = other_step ""

-- `ECONOMY_ESCROW_ACTION[step]`.
unfoldable pub escrow_action : SagaStep → Option String
escrow_action fund_escrow = some "FUND"
escrow_action distribute_escrow = some "DISTRIBUTE"
escrow_action release_escrow = some "REFUND"
escrow_action (other_step s) = none

pub data Status : Type 0 where
  succeeded failed : Status

unfoldable pub status_text : Status → String
status_text succeeded = "SUCCEEDED"
status_text failed = "FAILED"

-- What `resultIdentity` keeps of a result.
pub record FinancialResult : Type 0 where
  pub operation_key : String
  pub payload_digest : String
  pub status : Status
  pub result_ref : Value
  pub error_code : Value

unfoldable pub result_value : FinancialResult → Value
unfolding status_text
result_value r = object (
    field "operation_key" (string r.operation_key) (
      field "payload_digest" (string r.payload_digest) (
        field "status" (string (status_text r.status))
          (field "result_ref" r.result_ref (field "error_code" r.error_code end)))))

-- `null` is `none`; `compensation_request` stays a value, since it is read as one.
pub record Saga : Type 0 where
  pub protocol_version : String
  pub kind : SagaKind
  pub saga_id : String
  pub business_attempt_id : String
  pub world_id : String
  pub contract_id : String
  pub contract_version : ℤ
  pub state : SagaState
  pub primary_step : SagaStep
  pub primary_operation_key : String
  pub primary_payload_digest : String
  pub primary_request : Value
  pub primary_result : Option FinancialResult
  pub compensation_operation_key : Option String
  pub compensation_payload_digest : Option String
  pub compensation_request : Value
  pub compensation_result : Option FinancialResult
  pub compensation_reason : Option String

-- `nonEmpty`, on a text.
unfoldable pub non_empty : String → Result (Unit {0})
non_empty s = fail_if (s == "") invalid_saga_input

-- `nonEmpty`, on a value.
unfoldable pub non_empty_text : Value → Result String
non_empty_text (string s) = if s == "" then err invalid_saga_input else ok s
non_empty_text _ = err invalid_saga_input

abbrev pub key_text : String → String → SagaStep → String
key_text world attempt step =
    "nh-saga/v1/"
    <> encode_uri_component world
    <> "/"
    <> encode_uri_component attempt
    <> "/"
    <> step_text step

unfoldable pub saga_operation_key : String → String → SagaStep → Result String
unfolding non_empty
saga_operation_key world attempt step = do
  non_empty world
  non_empty attempt
  non_empty (step_text step)
  ok (key_text world attempt step)
