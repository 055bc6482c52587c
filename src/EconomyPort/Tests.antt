-- ===== src/EconomyPort/Tests.antt =====
-- The theorems on the port, at a distribution, a response and a call.
use new_humans.Prelude.{String, true, some, none, includes, if◌then◌else◌, ok, ◌≡◌, refl, ◌⊎◌}
use new_humans.Platform.{Platform}
use new_humans.Kb.{disposition_of}
use new_humans.Js.{
  text_field, text_of, Value, end, field, null, boolean, object, array, cons, nil, get, get_field,
}
use new_humans.EconomyPort.Patterns.{
  is_positive_integer, is_non_negative_integer, is_decimal_integer, decimal_value, ends_with,
}
use new_humans.EconomyPort.Request.{
  assert_economy_port_request, read_operation, assert_request_payload, walk_micro_e, assert_escrow,
  assert_action, assert_distribute, required_micro_e, allocation_total, assert_plain_object,
  assert_non_empty_string, assert_version, assert_micro_e, assert_positive_micro_e, is_timestamp,
}
use new_humans.EconomyPort.Response.{
  assert_economy_port_response, assert_response_envelope, assert_optional_fields,
  assert_response_body, assert_outcome, assert_status_details,
}
use new_humans.EconomyPort.Port.{
  Adapter, economy_port_operations, guarded, create_economy_port, require_operations, port_call,
}
use new_humans.EconomyPort.Outcomes.{Success, Refusal, response-Outcome}
use new_humans.EconomyPort.Distribution.{PaysAll, distribution-PaysAll}
use new_humans.EconomyPort.Calls.{Checked, call-Checked}

abbrev platform : Platform
platform = record { sha256_hex = λ s. s; is_timestamp = λ s. true }

abbrev allocation : String → String → Value
allocation who amount =
    object (text_field "principal_ref" who (text_field "amount_micro_e" amount end))

abbrev distribution : Value
distribution = object (
    text_field "escrow_action" "DISTRIBUTE" (
      text_field "contract_ref" "contract-1" (
        text_field "amount_micro_e" "300" (
          text_field "escrow_ref" "escrow-1" (
            text_field "balance_receipt_ref" "receipt-1" (
              text_field "balance_observed_at" "2026-01-01T00:00:00Z" (
                text_field "expected_balance_micro_e" "300" (
                  text_field "expected_resource_version" "7" (
                    field "allocations"
                      (array (cons (allocation "a" "100") (cons (allocation "b" "200") nil)))
                      end)))))))))

abbrev request_of : Value → Value
request_of payload = object (
    text_field "contract_version" "nh.kb-economy-port.v2" (
      text_field "operation" "escrow" (
        text_field "request_id" "r-1" (
          text_field "idempotency_key" "k-1"
            (text_field "principal_ref" "agent-1" (field "payload" payload end))))))

distribution_accepted :
    assert_economy_port_request platform "escrow" (request_of distribution) ≡ ok tt
unfolding assert_economy_port_request read_operation assert_request_payload walk_micro_e
    assert_escrow assert_action assert_distribute required_micro_e allocation_total
    assert_plain_object assert_non_empty_string assert_version assert_micro_e
    assert_positive_micro_e is_timestamp is_positive_integer is_non_negative_integer
    is_decimal_integer decimal_value ends_with get get_field
distribution_accepted = refl

distribution-PaysAll_example : PaysAll distribution
unfolding get get_field
distribution-PaysAll_example =
    distribution-PaysAll platform (request_of distribution) distribution_accepted refl

abbrev timeout : Value
timeout = object (
    text_field "contract_version" "nh.kb-economy-port.v2" (
      text_field "operation" "balance" (
        text_field "request_id" "r-1" (
          text_field "status" "TIMEOUT" (
            field "result" null (
              field "error"
                (object (
                  text_field "code" "TIMEOUT"
                    (field "retry_with_same_idempotency_key" (boolean true) end)))
                end))))))

timeout_accepted : assert_economy_port_response platform "balance" timeout ≡ ok tt
unfolding assert_economy_port_response assert_response_envelope assert_optional_fields
    assert_response_body assert_outcome assert_status_details read_operation walk_micro_e
    assert_plain_object assert_non_empty_string assert_version assert_micro_e ends_with
    disposition_of get get_field
timeout_accepted = refl

response-Outcome_example :
    Success (text_of (get "status" timeout)) timeout
    ⊎ Refusal (text_of (get "status" timeout)) timeout
response-Outcome_example = response-Outcome platform "balance" timeout timeout_accepted

-- An adapter that always times out.
abbrev times_out : Adapter
times_out operation = some (λ request. ok timeout)

abbrev balance_request : Value
balance_request = object (
    text_field "contract_version" "nh.kb-economy-port.v2" (
      text_field "operation" "balance" (
        text_field "request_id" "r-1" (
          text_field "idempotency_key" "k-1"
            (text_field "principal_ref" "agent-1" (field "payload" (object end) end))))))

abbrev port : Adapter
port operation =
    if includes economy_port_operations operation
    then guarded platform operation (times_out operation)
    else none

port_created : create_economy_port platform (some times_out) ≡ ok port
unfolding create_economy_port require_operations
port_created = refl

call_returns : port_call platform "balance" (λ request. ok timeout) balance_request ≡ ok timeout
unfolding port_call assert_economy_port_request read_operation assert_request_payload walk_micro_e
    assert_plain_object assert_non_empty_string assert_version assert_micro_e ends_with get
    get_field
call_returns = rw timeout_accepted refl

call-Checked_example : Checked platform times_out "balance" balance_request timeout
call-Checked_example =
    call-Checked platform times_out port "balance"
      (port_call platform "balance" (λ request. ok timeout)) balance_request timeout port_created
      refl call_returns
