-- ===== src/SagaStore/Results.antt =====
-- A financial result arrives: inbox, saga and outbox change in one transaction.
use new_humans.Prelude.{
  ℕ, ◌+◌, String, Bool, true, false, not, ◌&&◌, ◌==◌, Option, none, some, if◌then◌else◌, Code,
  Result, ok, err, fail_if, ◌>>=◌, ◌>>◌, invalid_saga_result, unexpected_saga_operation,
  saga_operation_not_found, saga_idempotency_conflict, saga_result_conflict, invalid_saga_input,
}
use new_humans.Platform.{Platform}
use new_humans.Js.{Value, string, null, get, is_object, or_else}
use new_humans.Js.Text.{is_blank}
use new_humans.Saga.{
  Saga, SagaState, pending_remote, compensation_pending, reconciliation_required, Status, succeeded,
  FinancialResult,
}
use new_humans.Saga.{is_key, assert_saga_invariant}
use new_humans.Saga.{observe, same_result, read_status}
use new_humans.SagaStore.Rows.{delivered, Store, require_text, freeze, freeze_outbox}

unfoldable pub require_text_value : Value → Result String
unfolding is_blank
require_text_value (string s) = if is_blank s then err invalid_saga_input else ok s
require_text_value _ = err invalid_saga_input

-- A success has a reference.
abbrev pub check_reference : Status → Value → Result (Unit {0})
check_reference succeeded v = do s ← require_text_value v; ok tt
check_reference _ v = ok tt

unfoldable pub normalize_result : Value → String → Result FinancialResult
unfolding require_text_value read_status
normalize_result result key = do
  fail_if (not (is_object result)) invalid_saga_result
  operation_key ←
      require_text_value
        (or_else (get "operation_key" result) (or_else (get "idempotency_key" result) (string key)))
  payload_digest ← require_text_value (get "payload_digest" result)
  status ← read_status (get "status" result)
  check_reference status (get "result_ref" result)
  ok (record {
    operation_key = operation_key;
    payload_digest = payload_digest;
    status = status;
    result_ref = or_else (get "result_ref" result) null;
    error_code = or_else (get "error_code" result) null;
  })

abbrev pub is_frozen : SagaState → Bool
is_frozen reconciliation_required = true
is_frozen _ = false

abbrev pub is_none : Option FinancialResult → Bool
is_none none = true
is_none (some r) = false

-- An outcome that was unknown can be resolved: the state before the freeze comes back.
unfoldable pub thaw : String → Saga → Saga
thaw key s =
    if not (is_frozen s.state)
    then s
    else if is_none s.primary_result && key == s.primary_operation_key
    then record s { state = pending_remote }
    else if is_none s.compensation_result && is_key s.compensation_operation_key key
    then record s { state = compensation_pending }
    else s

abbrev pub is_conflict : Code → Bool
is_conflict saga_idempotency_conflict = true
is_conflict saga_result_conflict = true
is_conflict _ = false

pub record Recorded : Type 0 where
  pub duplicate : Bool
  pub conflict : Bool
  pub store : Store

abbrev pub conflicting : ℕ → String → Store → Recorded
conflicting now code s = record {
  duplicate = false;
  conflict = true;
  store = record s { saga = freeze now code now s.saga; outbox = freeze_outbox code s.outbox };
}

abbrev pub code_text : Code → String
code_text saga_idempotency_conflict = "SAGA_IDEMPOTENCY_CONFLICT"
code_text _ = "SAGA_RESULT_CONFLICT"

-- The text of an error code that is kept in the row, and the time where there is one. A code that is
-- neither a text nor absent is left out of the row here.
abbrev pub error_text : Value → Option String
error_text (string s) = some s
error_text _ = none

abbrev pub error_time : ℕ → Value → Option ℕ → Option ℕ
error_time now (string s) before = some now
error_time now _ before = before

-- `COALESCE(at, now())`.
abbrev time_or : Option ℕ → ℕ → ℕ
time_or none now = now
time_or (some at) now = at

-- The rows after an accepted result.
abbrev pub accepted : ℕ → FinancialResult → Store → Saga → Recorded
accepted now r s next = record {
  duplicate = false;
  conflict = false;
  store = record s {
    saga = record s.saga {
      state = next.state;
      snapshot = next;
      version = s.saga.version + 1;
      last_error_code = error_text r.error_code;
      last_error_at = error_time now r.error_code s.saga.last_error_at;
      next_reconcile_at = none;
    };
    outbox = record s.outbox {
      status = delivered;
      delivered_at = some (time_or s.outbox.delivered_at now);
      lease_owner = none;
      lease_until = none;
      last_error_code = none;
    };
    inbox = some r;
  };
}

-- The outcome of the observation: the next snapshot, a conflict, or an error that aborts.
abbrev pub after_observation : ℕ → FinancialResult → Store → Result Saga → Result Recorded
after_observation now r s (ok next) = ok (accepted now r s next)
after_observation now r s (err code) =
    if is_conflict code
    then ok (conflicting now (code_text code) (record s { inbox = some r }))
    else err code

-- The inbox keeps the first result of a key.
abbrev pub with_inbox :
    Option FinancialResult → ℕ → FinancialResult → Store → Result Recorded → Result Recorded
with_inbox none now r s fresh = fresh
with_inbox (some prior) now r s fresh =
    if prior.payload_digest == r.payload_digest && same_result prior r
    then ok (record { duplicate = true; conflict = false; store = s })
    else ok (conflicting now "SAGA_RESULT_CONFLICT" s)

-- What the transaction observes, on the snapshot that it restores.
unfoldable pub observed_by : Platform → FinancialResult → Store → Result Saga
unfolding thaw observe
observed_by p r s = do
  assert_saga_invariant p (thaw r.operation_key s.saga.snapshot)
  observe (thaw r.operation_key s.saga.snapshot) r

unfoldable pub record_saga_financial_result :
    Platform → ℕ → String → Value → Store → Result Recorded
unfolding require_text normalize_result observed_by same_result
record_saga_financial_result p now operation_key result s = do
  require_text operation_key
  r ← normalize_result result operation_key
  fail_if (not (r.operation_key == operation_key)) unexpected_saga_operation
  fail_if (not (s.outbox.operation_key == operation_key)) saga_operation_not_found
  with_inbox s.inbox now r s (after_observation now r s (observed_by p r s))
