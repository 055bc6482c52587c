-- ===== src/EconomyPort/Response.antt =====
-- The envelope and the payload of a response, and the port around an adapter.
use new_humans.Prelude.{
  String, Bool, true, false, not, ◌&&◌, ◌||◌, ◌==◌, List, [], ◌∷◌, if◌then◌else◌, Result, ok,
  fail_if, ◌>>=◌, ◌>>◌, invalid_economy_port_envelope, economy_port_version_mismatch,
  invalid_economy_port_response,
}
use new_humans.Platform.{Platform}
use new_humans.Kb.{disposition_of, is_kb_error}
use new_humans.Js.{is_one_of, text_of, is_true, Value, get, is_undefined, is_null, is_string}
use new_humans.EconomyPort.Request.{
  economy_port_version, Operation, escrow, or_unknown, read_operation, assert_non_empty_string,
  assert_plain_object, assert_version, non_negative, assert_micro_e, walk_micro_e, is_timestamp,
}

abbrev pub economy_port_statuses : List String
economy_port_statuses =
    "SUCCEEDED" ∷ "DUPLICATE" ∷ "UNAVAILABLE" ∷ "TIMEOUT" ∷ "AUTH_FAILED" ∷ "BINDING_MISSING"
    ∷ "STALE_VERSION" ∷ "INSUFFICIENT_ENERGY" ∷ "CONFLICT" ∷ "OUTCOME_UNKNOWN" ∷ []

abbrev pub is_success : String → Bool
is_success status = status == "SUCCEEDED" || status == "DUPLICATE"

-- `null` or `undefined`.
abbrev pub is_missing : Value → Bool
is_missing v = is_null v || is_undefined v

-- A field that may be left out, under a check.
abbrev pub unless_undefined : Value → Result (Unit {0}) → Result (Unit {0})
unless_undefined v check = if is_undefined v then ok tt else check

abbrev pub unless_missing : Value → Result (Unit {0}) → Result (Unit {0})
unless_missing v check = if is_missing v then ok tt else check

-- Result and error by status.
unfoldable pub assert_outcome : String → Value → Result (Unit {0})
assert_outcome status response =
    if is_success status
    then (do
      fail_if (not (is_null (get "error" response))) invalid_economy_port_response
      fail_if (is_missing (get "result" response)) invalid_economy_port_response)
    else (do
      fail_if
          (not (is_kb_error (disposition_of status))
            || not (is_string (get "code" (get "error" response)) status))
          invalid_economy_port_response
      fail_if (not (is_null (get "result" response))) invalid_economy_port_response
      fail_if (is_missing (get "error" response)) invalid_economy_port_response)

unfoldable pub assert_balance_result : Platform → Value → Value → Result (Unit {0})
unfolding assert_non_empty_string assert_micro_e is_timestamp
assert_balance_result p version result = do
  assert_non_empty_string (get "escrow_ref" result)
  assert_micro_e non_negative (get "balance_micro_e" result)
  assert_non_empty_string (get "receipt_ref" result)
  assert_non_empty_string (get "observed_at" result)
  fail_if (not (is_timestamp p (get "observed_at" result))) invalid_economy_port_response
  fail_if (is_undefined version) invalid_economy_port_response

unfoldable pub assert_distribute_result : Value → Value → Result (Unit {0})
unfolding assert_non_empty_string assert_micro_e
assert_distribute_result version result = do
  assert_non_empty_string (get "escrow_ref" result)
  assert_non_empty_string (get "settlement_ref" result)
  assert_non_empty_string (get "receipt_ref" result)
  assert_micro_e non_negative (get "distributed_micro_e" result)
  assert_micro_e non_negative (get "escrow_balance_after_micro_e" result)
  fail_if (is_undefined version) invalid_economy_port_response

unfoldable pub assert_escrow_result : Platform → Value → Value → Result (Unit {0})
unfolding assert_balance_result assert_distribute_result
assert_escrow_result p version result = do
  let action = get "escrow_action" result
  fail_if (not (is_one_of ("FUND" ∷ "DISTRIBUTE" ∷ "REFUND" ∷ "BALANCE" ∷ []) action))
      invalid_economy_port_response
  if is_string action "BALANCE" then assert_balance_result p version result else ok tt
  if is_string action "DISTRIBUTE" then assert_distribute_result version result else ok tt

abbrev pub is_escrow : Operation → Bool
is_escrow escrow = true
is_escrow _ = false

-- What a status asks for besides.
unfoldable pub assert_status_details : String → Value → Result (Unit {0})
unfolding assert_non_empty_string assert_micro_e assert_version
assert_status_details status response = do
  let error = get "error" response
  if status == "DUPLICATE" then assert_non_empty_string (get "operation_ref" response) else ok tt
  if status == "TIMEOUT"
      then fail_if
          (not (is_string (get "code" error) "TIMEOUT")
            || not (is_true (get "retry_with_same_idempotency_key" error)))
          invalid_economy_port_response
      else ok tt
  if status == "OUTCOME_UNKNOWN"
      then (do
        fail_if (not (is_string (get "code" error) "OUTCOME_UNKNOWN")) invalid_economy_port_response
        assert_non_empty_string (get "reconcile_ref" error))
      else ok tt
  if status == "INSUFFICIENT_ENERGY"
      then (do
        assert_micro_e non_negative (get "available_micro_e" error)
        assert_micro_e non_negative (get "required_micro_e" error))
      else ok tt
  if status == "STALE_VERSION" then assert_version (get "current_version" error) else ok tt

-- The fields that may be left out.
unfoldable pub assert_optional_fields : Value → Result (Unit {0})
unfolding assert_plain_object assert_non_empty_string assert_version
assert_optional_fields response = do
  assert_version (get "resource_version" response)
  unless_undefined (get "operation_ref" response)
      (assert_non_empty_string (get "operation_ref" response))
  unless_missing (get "result" response) (assert_plain_object (get "result" response))
  unless_missing (get "error" response) (assert_plain_object (get "error" response))

-- The checks of the envelope, up to the status.
unfoldable pub assert_response_envelope : String → Value → Result Operation
unfolding read_operation assert_plain_object assert_non_empty_string
assert_response_envelope operation response = do
  o ← or_unknown (read_operation operation)
  assert_plain_object response
  fail_if (not (is_string (get "contract_version" response) economy_port_version))
      economy_port_version_mismatch
  fail_if (not (is_string (get "operation" response) operation)) invalid_economy_port_envelope
  assert_non_empty_string (get "request_id" response)
  fail_if (not (is_one_of economy_port_statuses (get "status" response)))
      invalid_economy_port_response
  ok o

-- What the operation and the status ask for.
unfoldable pub assert_response_body : Platform → Operation → String → Value → Result (Unit {0})
unfolding assert_outcome assert_escrow_result assert_status_details
assert_response_body p o status response = do
  assert_outcome status response
  if is_escrow o && is_success status
      then assert_escrow_result p (get "resource_version" response) (get "result" response)
      else ok tt
  assert_status_details status response

unfoldable pub assert_economy_port_response : Platform → String → Value → Result (Unit {0})
unfolding assert_response_envelope assert_optional_fields walk_micro_e assert_response_body
assert_economy_port_response p operation response = do
  o ← assert_response_envelope operation response
  assert_optional_fields response
  walk_micro_e response
  assert_response_body p o (text_of (get "status" response)) response
