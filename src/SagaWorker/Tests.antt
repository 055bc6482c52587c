-- ===== src/SagaWorker/Tests.antt =====
-- The theorems on the worker, at a dispatch that times out and at operations that were lost.
use new_humans.Prelude.{some, none, ok, ◌≡◌, refl}
use new_humans.Js.{Value, object, string, end, field, get, get_field}
use new_humans.Js.Text.{is_blank}
use new_humans.Saga.{reconciliation_required}
use new_humans.Saga.Runs.{platform, refunding, refunding-Reachable}
use new_humans.SagaStore.Rows.{retry_wait, Store, require_text}
use new_humans.SagaStore.Failures.{claim_saga_outbox, record_saga_dispatch_failure}
use new_humans.SagaStore.Agreement.{Consistent, SameCommand}
use new_humans.SagaStore.Runs.{dispatched, frozen_store, waiting}
use new_humans.SagaWorker.Dispatch.{
  Reply, answered, WorkerOptions, retry_scheduled, fail_with, handle_error, handle_reply,
  dispatch_claimed, dispatch_saga_outbox_once,
}
use new_humans.SagaWorker.Reconcile.{reconcile_not_found, still_frozen}
use new_humans.SagaWorker.Steps.{dispatch-Consistent}
use new_humans.SagaWorker.Stuck.{refund-still_frozen, resent-snapshot, Resendable}

abbrev options : WorkerOptions
options = record {
  worker_id = "worker-1";
  lease_ms = 30000;
  max_attempts = 5;
  retry_after_ms = 1000;
}

abbrev times_out : Value → Reply
times_out request = answered (object (field "status" (string "TIMEOUT") end))

-- The lease of `dispatched` ran out at 30000.
abbrev retried : Store
retried = record dispatched {
  outbox = record dispatched.outbox {
    status = retry_wait;
    attempts = 2;
    next_attempt_at = 41000;
    lease_owner = none;
    lease_until = none;
    last_error_code = some "TIMEOUT";
  };
}

dispatched_again :
    dispatch_saga_outbox_once platform 40000 options "request-2" times_out dispatched
    ≡ ok (record { outcome = retry_scheduled; store = retried })
unfolding dispatch_saga_outbox_once claim_saga_outbox require_text is_blank dispatch_claimed
    handle_reply handle_error fail_with record_saga_dispatch_failure get get_field
dispatched_again = refl

dispatch-Consistent_example :
    (Consistent dispatched → Consistent retried) × SameCommand dispatched retried
dispatch-Consistent_example =
    dispatch-Consistent platform 40000 options "request-2" times_out dispatched
      (record { outcome = retry_scheduled; store = retried }) dispatched_again

-- The refund of a frozen saga.
abbrev lost_refund : Store
lost_refund = record dispatched {
  saga = record dispatched.saga {
    state = reconciliation_required;
    snapshot = record refunding { state = reconciliation_required };
  };
  outbox = record frozen_store.outbox {
    operation_key = "nh-saga/v1/world%2F1/attempt-1/RELEASE_ESCROW";
  };
}

refund-still_frozen_example :
    reconcile_not_found 50000 lost_refund ≡ record { outcome = still_frozen; store = lost_refund }
refund-still_frozen_example =
    refund-still_frozen platform 50000 refunding lost_refund refunding-Reachable refl refl

resent-snapshot_example :
    Resendable dispatched frozen_store 50000 60000 30000 "worker-1"
      (reconcile_not_found 50000 frozen_store)
unfolding is_blank
resent-snapshot_example =
    resent-snapshot 50000 60000 30000 "worker-1" dispatched frozen_store waiting refl refl refl refl
      refl refl
