-- ===== src/SagaWorker/Dispatch.antt =====
-- One dispatch: the claim, the call of the port and what is recorded of its reply.
use new_humans.Prelude.{
  err, type_error, ℕ, String, Bool, true, false, not, ◌&&◌, ◌||◌, ◌==◌, eqb, Option, none, some,
  if◌then◌else◌, Result, ok, fail_if, ◌>>=◌, ◌>>◌, invalid_saga_worker_input,
}
use new_humans.Prelude.Int.{pos}
use new_humans.Platform.{Platform}
use new_humans.Js.{
  is_undefined, is_null, text_of, Value, undefined, null, boolean, number, int, not_finite, string,
  object, end, field, get, is_string, or_else,
}
use new_humans.Js.Text.{is_blank}
use new_humans.EconomyPort.{economy_port_version}
use new_humans.Saga.{FinancialCommand}
use new_humans.SagaStore.Rows.{Store, OutboxRow}
use new_humans.SagaStore.Failures.{Failure, claim_saga_outbox, record_saga_dispatch_failure}
use new_humans.SagaStore.Results.{record_saga_financial_result}

-- What the call of `economyPort.escrow` gives: a response, or an error with its `code` and whether it
-- proves that nothing was dispatched.
pub data Reply : Type 0 where
  answered : Value → Reply
  threw : (confirmed_no_effect : Bool) (code : Value) → Reply

pub data DispatchOutcome : Type 0 where
  idle dead_lettered retry_scheduled needs_reconciliation sent refused : DispatchOutcome

pub record Dispatched : Type 0 where
  pub outcome : DispatchOutcome
  pub store : Store

pub record WorkerOptions : Type 0 where
  pub worker_id : String
  pub lease_ms : ℕ
  pub max_attempts : ℕ
  pub retry_after_ms : ℕ

-- `request_id` is a fresh UUID.
unfoldable pub request_for : String → FinancialCommand → Value
request_for request_id c = object (
    field "contract_version" (string economy_port_version) (
      field "operation" (string c.operation) (
        field "request_id" (string request_id) (
          field "idempotency_key" (string c.idempotency_key)
            (field "principal_ref" c.principal_ref (field "payload" c.payload end))))))

unfoldable pub success_reference : Value → FinancialCommand → Value
success_reference response c =
    let result = get "result" response in
    if is_string (get "escrow_action" c.payload) "DISTRIBUTE"
    then or_else (get "settlement_ref" result) (
        or_else (get "receipt_ref" result)
          (or_else (get "operation_ref" response) (or_else (get "operation_ref" result) null)))
    else or_else (get "escrow_ref" result) (
        or_else (get "operation_ref" response) (
          or_else (get "operation_ref" result)
            (or_else (get "settlement_ref" result) (or_else (get "receipt_ref" result) null))))

-- `!v`; of the numbers that are not finite only NaN is meant.
abbrev pub is_falsy : Value → Bool
is_falsy undefined = true
is_falsy null = true
is_falsy (boolean b) = not b
is_falsy (number (int (pos n))) = eqb n 0
is_falsy (number not_finite) = true
is_falsy (string s) = s == ""
is_falsy _ = false

-- The command still has the identity of its row.
abbrev pub has_identity : OutboxRow → Bool
has_identity o =
    o.command.operation == "escrow"
    && o.command.operation_key == o.operation_key
    && o.command.idempotency_key == o.operation_key
    && o.command.payload_digest == o.payload_digest

abbrev pub failure_of : WorkerOptions → String → Bool → Bool → Failure
failure_of w code retryable unknown = record {
  lease_owner = w.worker_id;
  error_code = code;
  retryable = retryable;
  outcome_unknown = unknown;
  retry_after_ms = w.retry_after_ms;
  max_attempts = w.max_attempts;
}

unfoldable pub fail_with :
    ℕ → WorkerOptions → String → Bool → Bool → DispatchOutcome → Store → Result Dispatched
unfolding record_saga_dispatch_failure
fail_with now w code retryable unknown outcome s = do
  t ← record_saga_dispatch_failure now (failure_of w code retryable unknown) s
  ok (record { outcome = outcome; store = t })

abbrev pub outcome_of : Bool → DispatchOutcome → DispatchOutcome
outcome_of conflict outcome = if conflict then needs_reconciliation else outcome

unfoldable pub record_with : Platform → ℕ → Value → DispatchOutcome → Store → Result Dispatched
unfolding record_saga_financial_result
record_with p now result outcome s = do
  r ← record_saga_financial_result p now s.outbox.command.operation_key result s
  ok (record { outcome = outcome_of r.conflict outcome; store = r.store })

abbrev pub success_result : FinancialCommand → Value → Value
success_result c ref = object (
    field "operation_key" (string c.operation_key) (
      field "payload_digest" (string c.payload_digest)
        (field "status" (string "SUCCEEDED") (field "result_ref" ref end))))

abbrev pub failure_result : FinancialCommand → Value → Value
failure_result c code = object (
    field "operation_key" (string c.operation_key) (
      field "payload_digest" (string c.payload_digest)
        (field "status" (string "FAILED") (field "error_code" code end))))

-- `error.code`, or the default where it is no text or blank.
unfoldable pub thrown_code : Value → String
unfolding is_blank
thrown_code (string s) = if is_blank s then "TRANSPORT_OUTCOME_UNKNOWN" else s
thrown_code _ = "TRANSPORT_OUTCOME_UNKNOWN"

abbrev pub response_code : Value → Value
response_code response =
    or_else (get "code" (get "error" response))
      (or_else (get "status" response) (string "KB_OPERATION_FAILED"))

-- A response that is no success. An unknown outcome leaves `maxAttempts` at its default.
unfoldable pub handle_error : Platform → ℕ → WorkerOptions → Value → Store → Result Dispatched
unfolding fail_with record_with
handle_error p now w response s =
    let status = get "status" response in
    let code = response_code response in
    if is_string status "OUTCOME_UNKNOWN"
    then fail_with now (record w { max_attempts = 5 }) (text_of code) false true
        needs_reconciliation s
    else if is_string status "TIMEOUT" || is_string status "UNAVAILABLE"
    then fail_with now w (text_of code) true false retry_scheduled s
    else record_with p now (failure_result s.outbox.command code) refused s

unfoldable pub handle_success : Platform → ℕ → WorkerOptions → Value → Store → Result Dispatched
unfolding fail_with record_with success_reference
handle_success p now w ref s =
    if is_falsy ref
    then fail_with now (record w { max_attempts = 5 }) "KB_SUCCESS_MISSING_OPERATION_REFERENCE"
        false true needs_reconciliation s
    else record_with p now (success_result s.outbox.command ref) sent s

-- `response.status` throws where there is no response; the claim stays committed then.
unfoldable pub handle_reply : Platform → ℕ → WorkerOptions → Reply → Store → Result Dispatched
unfolding handle_error handle_success thrown_code
handle_reply p now w (threw confirmed code) s =
    fail_with now w (thrown_code code) confirmed (not confirmed)
      (if confirmed then retry_scheduled else needs_reconciliation) s
handle_reply p now w (answered response) s =
    if is_undefined response || is_null response
    then err type_error
    else if is_string (get "status" response) "SUCCEEDED"
        || is_string (get "status" response) "DUPLICATE"
    then handle_success p now w (success_reference response s.outbox.command) s
    else handle_error p now w response s

-- From the claimed row on.
unfoldable pub dispatch_claimed :
    Platform → ℕ → WorkerOptions → String → (Value → Reply) → Store → Result Dispatched
unfolding handle_reply request_for
dispatch_claimed p now w request_id escrow s =
    if not (has_identity s.outbox)
    then fail_with now (record w { retry_after_ms = 1000; max_attempts = 5 })
        "SAGA_OUTBOX_IDENTITY_MISMATCH" false false dead_lettered s
    else handle_reply p now w (escrow (request_for request_id s.outbox.command)) s

abbrev pub dispatch_if_claimed :
    Platform
    → ℕ
    → WorkerOptions
    → String
    → (Value → Reply)
    → Store
    → Option Store
    → Result Dispatched
dispatch_if_claimed p now w request_id escrow s none = ok (record { outcome = idle; store = s })
dispatch_if_claimed p now w request_id escrow s (some t) =
    dispatch_claimed p now w request_id escrow t

unfoldable pub dispatch_saga_outbox_once :
    Platform → ℕ → WorkerOptions → String → (Value → Reply) → Store → Result Dispatched
unfolding dispatch_claimed is_blank
dispatch_saga_outbox_once p now w request_id escrow s = do
  fail_if (is_blank w.worker_id) invalid_saga_worker_input
  claimed ← claim_saga_outbox now w.worker_id w.lease_ms s
  dispatch_if_claimed p now w request_id escrow s claimed
