-- ===== src/SagaWorker/Reconcile.antt =====
-- One reconciliation: an unknown outcome is looked up under its idempotency key.
use new_humans.Prelude.{
  ℕ, ◌+◌, String, Bool, true, false, not, ◌&&◌, ◌||◌, ◌==◌, leb, Option, none, some, if◌then◌else◌,
  Result, ok, fail_if, ◌>>=◌, ◌>>◌, invalid_saga_worker_input,
}
use new_humans.Platform.{Platform}
use new_humans.Js.{Value}
use new_humans.Js.Text.{is_blank}
use new_humans.Saga.{Saga, SagaState, pending_remote, compensation_pending, is_key}
use new_humans.SagaStore.Rows.{OutboxStatus, frozen, retry_wait, Store}
use new_humans.SagaStore.Results.{is_frozen, is_none, record_saga_financial_result}

-- The lookup: an authoritative result, no such operation, no answer, or an error with its code.
pub data Lookup : Type 0 where
  found : Value → Lookup
  not_found unknown : Lookup
  lookup_failed : String → Lookup

pub data ReconcileOutcome : Type 0 where
  nothing_due retry_reconciliation still_frozen resolved same_key_retry_scheduled : ReconcileOutcome

pub record Reconciled : Type 0 where
  pub outcome : ReconcileOutcome
  pub store : Store

abbrev pub is_frozen_row : OutboxStatus → Bool
is_frozen_row frozen = true
is_frozen_row _ = false

abbrev pub is_due : ℕ → Option ℕ → Bool
is_due now none = false
is_due now (some t) = leb t now

-- The saga and its operation are frozen and due, and the operation is one of the saga's.
abbrev pub is_reconcilable : ℕ → Store → Bool
is_reconcilable now s =
    is_frozen s.saga.state
    && is_due now s.saga.next_reconcile_at
    && is_frozen_row s.outbox.status
    && (s.outbox.operation_key == s.saga.snapshot.primary_operation_key
        || is_key s.saga.snapshot.compensation_operation_key s.outbox.operation_key)

abbrev pub look_again : ℕ → Store → Store
look_again at s = record s { saga = record s.saga { next_reconcile_at = some at } }

abbrev pub look_again_after : ℕ → ℕ → String → Store → Store
look_again_after now at code s = record s {
  saga = record s.saga {
    next_reconcile_at = some at;
    last_error_code = some code;
    last_error_at = some now;
  };
}

-- The state that allows the same operation to be sent again.
abbrev pub resend_state : String → Saga → SagaState
resend_state key s = if s.primary_operation_key == key then pending_remote else compensation_pending

abbrev pub resent : ℕ → Store → Store
resent now s = record s {
  saga = record s.saga {
    state = resend_state s.outbox.operation_key s.saga.snapshot;
    snapshot = record s.saga.snapshot {
      state = resend_state s.outbox.operation_key s.saga.snapshot;
    };
    version = s.saga.version + 1;
    next_reconcile_at = none;
  };
  outbox = record s.outbox { status = retry_wait; next_attempt_at = now; last_error_code = none };
}

-- The authority knows no such operation.
unfoldable pub reconcile_not_found : ℕ → Store → Reconciled
reconcile_not_found now s =
    if not (is_none s.saga.snapshot.primary_result)
      || not (is_none s.saga.snapshot.compensation_result)
    then record { outcome = still_frozen; store = s }
    else record { outcome = same_key_retry_scheduled; store = resent now s }

abbrev pub outcome_of : Bool → ReconcileOutcome
outcome_of conflict = if conflict then still_frozen else resolved

unfoldable pub reconcile_found : Platform → ℕ → Value → Store → Result Reconciled
unfolding record_saga_financial_result
reconcile_found p now result s = do
  r ← record_saga_financial_result p now s.outbox.operation_key result s
  ok (record { outcome = outcome_of r.conflict; store = r.store })

-- On the row that was claimed by moving its next reconciliation on.
unfoldable pub reconcile_claimed : Platform → ℕ → ℕ → Lookup → Store → Result Reconciled
unfolding reconcile_found reconcile_not_found
reconcile_claimed p now retry_after_ms (found result) s = reconcile_found p now result s
reconcile_claimed p now retry_after_ms not_found s = ok (reconcile_not_found now s)
reconcile_claimed p now retry_after_ms unknown s =
    ok (record { outcome = retry_reconciliation; store = look_again (now + retry_after_ms) s })
reconcile_claimed p now retry_after_ms (lookup_failed code) s = ok (record {
  outcome = retry_reconciliation;
  store = look_again_after now (now + retry_after_ms) code s;
})

unfoldable pub reconcile_saga_once :
    Platform → ℕ → String → ℕ → ℕ → (String → String → Lookup) → Store → Result Reconciled
unfolding is_blank reconcile_claimed
reconcile_saga_once p now worker_id lease_ms retry_after_ms lookup s = do
  fail_if (is_blank worker_id) invalid_saga_worker_input
  if is_reconcilable now s
      then reconcile_claimed p now retry_after_ms
          (lookup s.outbox.operation_key s.outbox.payload_digest) (look_again (now + lease_ms) s)
      else ok (record { outcome = nothing_due; store = s })
