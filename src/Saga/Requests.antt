-- ===== src/Saga/Requests.antt =====
-- The financial request of a step, checked against the port and made canonical.
use new_humans.Prelude.{
  String, Bool, not, ◌&&◌, Option, none, some, Result, ok, err, fail_if, ◌>>=◌, ◌>>◌,
  invalid_saga_input,
}
use new_humans.Platform.{Platform}
use new_humans.Js.{
  Value, string, object, instance_of, end, field, get, set_field, is_undefined, is_string,
  is_object,
}
use new_humans.Js.Json.{json_copy}
use new_humans.Idempotency.{payload_digest}
use new_humans.EconomyPort.{economy_port_version, assert_economy_port_request}
use new_humans.Saga.Types.{SagaStep, escrow_action, non_empty_text}

-- `plainObject`.
unfoldable pub plain_object : Value → Result (Unit {0})
plain_object v = fail_if (not (is_object v)) invalid_saga_input

-- `clone`: the digest refuses what JSON cannot say.
unfoldable pub clone : Platform → Value → Result Value
clone p v = do digest ← payload_digest p v; ok (json_copy v)

-- `{ ...v, escrow_action: action }`.
unfoldable pub with_action : String → Value → Value
with_action action (object fs) = object (set_field "escrow_action" (string action) fs)
with_action action (instance_of fs) = object (set_field "escrow_action" (string action) fs)
with_action action v = object (field "escrow_action" (string action) end)

abbrev pub or_unsupported : Option String → Result String
or_unsupported none = err invalid_saga_input
or_unsupported (some action) = ok action

-- A given action has to be that of the step.
abbrev pub wrong_action : Value → String → Bool
wrong_action v action = not (is_undefined v) && not (is_string v action)

unfoldable pub economy_port_payload : Platform → SagaStep → Value → Result Value
economy_port_payload p step payload = do
  action ← or_unsupported (escrow_action step)
  plain_object payload
  fail_if (wrong_action (get "escrow_action" payload) action) invalid_saga_input
  copy ← clone p payload
  ok (with_action action copy)

abbrev pub normalized_request : Value → Value → Value
normalized_request principal payload =
    object (field "principal_ref" principal (field "payload" payload end))

-- The request by which the shape is checked.
abbrev pub shape_request : Value → Value → Value
shape_request principal payload = object (
    field "contract_version" (string economy_port_version) (
      field "operation" (string "escrow") (
        field "request_id" (string "saga-shape-validation") (
          field "idempotency_key" (string "saga-shape-validation")
            (field "principal_ref" principal (field "payload" payload end))))))

unfoldable pub canonical_financial_request : Platform → SagaStep → Value → Result Value
canonical_financial_request p step request = do
  plain_object request
  principal ← non_empty_text (get "principal_ref" request)
  payload ← economy_port_payload p step (get "payload" request)
  assert_economy_port_request p "escrow" (shape_request (string principal) payload)
  ok (normalized_request (string principal) payload)

unfoldable pub digest_financial_request : Platform → Value → Result String
digest_financial_request p request =
    payload_digest p (normalized_request (get "principal_ref" request) (get "payload" request))
