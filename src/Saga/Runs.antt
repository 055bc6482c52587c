-- ===== src/Saga/Runs.antt =====
-- Runs of a saga at concrete inputs.
use new_humans.Prelude.{
  String, ◌≡◌, refl, true, none, some, Result, ok, err, invalid_saga_transition,
}
use new_humans.Prelude.Int.{pos}
use new_humans.Platform.{Platform}
use new_humans.Js.{
  text_field, int, Value, null, number, string, object, array, cons, nil, end, field, get,
  get_field, set_field,
}
use new_humans.Js.Json.{json_copy, stringify}
use new_humans.Js.Text.{encode_uri_component}
use new_humans.Idempotency.{payload_digest}
use new_humans.EconomyPort.{
  assert_economy_port_request, assert_non_empty_string, is_decimal_integer, is_positive_integer,
  is_non_negative_integer, decimal_value,
}
use new_humans.Saga.Types.{
  contract_activation, contract_settlement, pending_remote, remote_succeeded, completed,
  compensation_pending, release_escrow, result_value, fund_escrow, Saga, succeeded,
  saga_operation_key, non_empty_text, primary_step_of, escrow_action, step_text, FinancialResult,
}
use new_humans.Saga.Requests.{
  plain_object, clone, with_action, economy_port_payload, canonical_financial_request,
  digest_financial_request,
}
use new_humans.Saga.Create.{SagaInput, create_saga, positive_version}
use new_humans.Saga.Canonical.{same_json, canonical_json}
use new_humans.Saga.Guards.{assert_saga_invariant, assert_primary, assert_compensation}
use new_humans.Saga.Observe.{
  observe_financial_result, result_identity, observe, observe_primary, observe_compensation,
  same_result,
}
use new_humans.Saga.Transitions.{mark_local_transition_committed, request_activation_compensation}
use new_humans.Saga.Reach.{observes, commits, compensates, Reachable, creates, continues}

-- A hash that shows its input.
abbrev pub platform : Platform
platform = record { sha256_hex = λ s. s; is_timestamp = λ s. true }

abbrev pub input : SagaInput
input = record {
  saga_id = string "saga-1";
  world_id = string "world/1";
  contract_id = string "contract-1";
  contract_version = number (int (pos 1));
  business_attempt_id = string "attempt-1";
  request = object (
      text_field "principal_ref" "agent-1" (
        field "payload"
          (object (text_field "contract_ref" "contract-1" (text_field "amount_micro_e" "2000" end)))
          end));
}

abbrev pub payload : Value
payload = object (
    text_field "contract_ref" "contract-1"
      (text_field "amount_micro_e" "2000" (text_field "escrow_action" "FUND" end)))

abbrev pub digest : String
digest =
    "sha256:{\"payload\":{\"amount_micro_e\":\"2000\",\"contract_ref\":\"contract-1\",\"escrow_action\":\"FUND\"},\"principal_ref\":\"agent-1\"}"

abbrev pub pending : Saga
pending = record {
  protocol_version = "nh.cross_product_saga.v1";
  kind = contract_activation;
  saga_id = "saga-1";
  business_attempt_id = "attempt-1";
  world_id = "world/1";
  contract_id = "contract-1";
  contract_version = pos 1;
  state = pending_remote;
  primary_step = fund_escrow;
  primary_operation_key = "nh-saga/v1/world%2F1/attempt-1/FUND_ESCROW";
  primary_payload_digest = digest;
  primary_request = object (text_field "principal_ref" "agent-1" (field "payload" payload end));
  primary_result = none;
  compensation_operation_key = none;
  compensation_payload_digest = none;
  compensation_request = null;
  compensation_result = none;
  compensation_reason = none;
}

-- What a run of an operation computes with.
abbrev pub Runs : Type 0
unfolding create_saga non_empty_text positive_version canonical_financial_request plain_object get
    get_field economy_port_payload clone payload_digest with_action set_field
    assert_economy_port_request saga_operation_key digest_financial_request encode_uri_component
    primary_step_of escrow_action step_text json_copy assert_non_empty_string is_decimal_integer
    is_positive_integer assert_saga_invariant assert_primary assert_compensation same_json
    canonical_json observe_financial_result result_identity observe observe_primary
    observe_compensation same_result result_value mark_local_transition_committed
    request_activation_compensation stringify is_non_negative_integer decimal_value
Runs = Unit

pub created : create_saga platform contract_activation input ≡ ok pending
unfolding Runs
created = refl

abbrev pub success : Value
success = object (
    text_field "operation_key" "nh-saga/v1/world%2F1/attempt-1/FUND_ESCROW" (
      text_field "payload_digest" digest
        (text_field "status" "SUCCEEDED" (text_field "result_ref" "escrow-1" end))))

abbrev pub funded : Saga
funded = record pending {
  state = remote_succeeded;
  primary_result = some (record {
    operation_key = "nh-saga/v1/world%2F1/attempt-1/FUND_ESCROW";
    payload_digest = digest;
    status = succeeded;
    result_ref = string "escrow-1";
    error_code = null;
  });
}

pub observed : observe_financial_result platform pending success ≡ ok funded
unfolding Runs
observed = refl

abbrev pub active : Saga
active = record funded { state = completed }

pub committed : mark_local_transition_committed platform funded "ACTIVE" ≡ ok active
unfolding Runs
committed = refl

pub not_settled :
    mark_local_transition_committed platform funded "SETTLED" ≡ err invalid_saga_transition
unfolding Runs
not_settled = refl

abbrev pub refund_payload : Value
refund_payload = object (
    text_field "contract_ref" "contract-1" (
      text_field "amount_micro_e" "2000" (
        text_field "escrow_ref" "escrow-1"
          (text_field "reason" "cancelled" (text_field "escrow_action" "REFUND" end)))))

abbrev pub refunding : Saga
refunding = record funded {
  state = compensation_pending;
  compensation_operation_key = some "nh-saga/v1/world%2F1/attempt-1/RELEASE_ESCROW";
  compensation_payload_digest =
      some
        "sha256:{\"payload\":{\"amount_micro_e\":\"2000\",\"contract_ref\":\"contract-1\",\"escrow_action\":\"REFUND\",\"escrow_ref\":\"escrow-1\",\"reason\":\"cancelled\"},\"principal_ref\":\"agent-1\"}";
  compensation_request =
      object (text_field "principal_ref" "agent-1" (field "payload" refund_payload end));
  compensation_reason = some "cancelled";
}

pub requested : request_activation_compensation platform funded "cancelled" ≡ ok refunding
unfolding Runs
requested = refl

abbrev pub settlement_input : SagaInput
settlement_input = record input {
  request = object (
      text_field "principal_ref" "agent-1" (
        field "payload"
          (object (
            text_field "contract_ref" "contract-1" (
              text_field "amount_micro_e" "2000" (
                text_field "escrow_ref" "escrow-1" (
                  text_field "balance_receipt_ref" "receipt-1" (
                    text_field "balance_observed_at" "2026-10-01T00:00:00Z" (
                      text_field "expected_balance_micro_e" "2000" (
                        text_field "expected_resource_version" "7" (
                          field "allocations"
                            (array (
                              cons
                                (object (
                                  text_field "principal_ref" "agent-2"
                                    (text_field "amount_micro_e" "2000" end)))
                                nil))
                            end)))))))))
          end));
}

abbrev pub saga_of : Result Saga → Saga
saga_of (ok s) = s
saga_of (err e) = pending

abbrev pub settling : Saga
unfolding Runs
settling = saga_of (create_saga platform contract_settlement settlement_input)

pub settlement_created : create_saga platform contract_settlement settlement_input ≡ ok settling
unfolding Runs
settlement_created = refl

pub settlement_kind : settling.kind ≡ contract_settlement
unfolding Runs
settlement_kind = refl

-- The steps above.
pub pending-Reachable : Reachable platform pending
pending-Reachable = creates contract_activation input created

pub funded-Reachable : Reachable platform funded
funded-Reachable = continues pending-Reachable (observes success observed)

pub refunding-Reachable : Reachable platform refunding
refunding-Reachable = continues funded-Reachable (compensates "cancelled" requested)

pub active-Reachable : Reachable platform active
active-Reachable = continues funded-Reachable (commits "ACTIVE" committed)

pub active_replays : observe_financial_result platform active success ≡ ok active
unfolding Runs
active_replays = refl

pub release_key :
    saga_operation_key "world/1" "attempt-1" release_escrow
    ≡ ok "nh-saga/v1/world%2F1/attempt-1/RELEASE_ESCROW"
unfolding Runs
release_key = refl

abbrev pub answer : FinancialResult
answer = record {
  operation_key = "nh-saga/v1/world%2F1/attempt-1/FUND_ESCROW";
  payload_digest = digest;
  status = succeeded;
  result_ref = string "escrow-1";
  error_code = null;
}

pub pending_holds : assert_saga_invariant platform pending ≡ ok tt
unfolding Runs
pending_holds = refl

pub pending_observes : observe pending answer ≡ ok funded
unfolding Runs
pending_observes = refl
