-- ===== src/SagaStore/Runs.antt =====
-- An activation whose dispatch ends without an answer, on the rows of the store.
use new_humans.Prelude.{String, true, false, some, none, ok, ◌≡◌, refl}
use new_humans.Js.Text.{is_blank}
use new_humans.Saga.{FinancialCommand, pending_remote, read_status, fund_escrow}
use new_humans.Js.{string, get}
use new_humans.Saga.Runs.{
  platform, pending, digest, success, funded, payload, answer, pending_holds, pending_observes,
}
use new_humans.SagaStore.Rows.{freeze, OutboxStatus, leased, Store, require_text}
use new_humans.SagaStore.Failures.{Failure, record_saga_dispatch_failure}
use new_humans.SagaStore.Results.{
  require_text_value, normalize_result, thaw, observed_by, accepted, Recorded,
  record_saga_financial_result,
}
use new_humans.SagaStore.Recovery.{Waiting}

abbrev pub key : String
key = "nh-saga/v1/world%2F1/attempt-1/FUND_ESCROW"

abbrev pub fund : FinancialCommand
fund = record {
  protocol_version = "nh.cross_product_saga.v1";
  economy_port_contract_version = "nh.kb-economy-port.v2";
  kb_idempotency_contract_version = "nh.kb-idempotency.v1";
  capability = "economy";
  operation_class = "FUNDS_WRITE";
  operation = "escrow";
  saga_step = fund_escrow;
  operation_key = key;
  idempotency_key = key;
  correlation_id = "attempt-1";
  principal_ref = string "agent-1";
  payload_digest = digest;
  payload = payload;
}

abbrev pub dispatched : Store
dispatched = record {
  saga = record {
    state = pending_remote;
    snapshot = pending;
    version = 1;
    last_error_code = none;
    last_error_at = none;
    next_reconcile_at = none;
  };
  outbox = record {
    operation_key = key;
    payload_digest = digest;
    command = fund;
    status = leased;
    attempts = 1;
    next_attempt_at = 0;
    lease_owner = some "worker-1";
    lease_until = some 30000;
    delivered_at = none;
    last_error_code = none;
  };
  inbox = none;
}

abbrev pub no_answer : Failure
no_answer = record {
  lease_owner = "worker-1";
  error_code = "TRANSPORT_OUTCOME_UNKNOWN";
  retryable = false;
  outcome_unknown = true;
  retry_after_ms = 1000;
  max_attempts = 5;
}

abbrev pub frozen_store : Store
frozen_store = record dispatched {
  saga = freeze 100 "TRANSPORT_OUTCOME_UNKNOWN" 1100 dispatched.saga;
  outbox = record dispatched.outbox {
    status = OutboxStatus.frozen;
    next_attempt_at = 1100;
    lease_owner = none;
    lease_until = none;
    last_error_code = some "TRANSPORT_OUTCOME_UNKNOWN";
  };
}

pub failed : record_saga_dispatch_failure 100 no_answer dispatched ≡ ok frozen_store
unfolding record_saga_dispatch_failure require_text is_blank
failed = refl

abbrev pub answered : Recorded
answered = accepted 200 answer dispatched funded

pub recorded : record_saga_financial_result platform 200 key success dispatched ≡ ok answered
unfolding record_saga_financial_result require_text is_blank normalize_result require_text_value
    read_status observed_by thaw get
recorded = rw (pending_holds, pending_observes) refl

pub waiting : Waiting dispatched
waiting = record { row = refl; snapshot = refl; no_result = refl; primary = refl; no_inbox = refl }
