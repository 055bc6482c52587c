-- ===== src/SagaStore/Transitions.antt =====
-- The first write of a saga, and the commit of its local transition.
use new_humans.Prelude.{
  ℕ, ◌+◌, String, Bool, true, false, not, ◌&&◌, ◌||◌, ◌==◌, Option, none, some, if◌then◌else◌,
  Result, ok, err, ◌>>=◌, invalid_saga_state, saga_already_active, unique_violation,
  saga_idempotency_conflict,
}
use new_humans.Prelude.Int.{ℤ, leb_ℤ}
use new_humans.Platform.{Platform}
use new_humans.Saga.{
  Saga, FinancialCommand, build_financial_command, mark_local_transition_committed,
}
use new_humans.SagaStore.Rows.{SagaRow, pending, OutboxRow, Store}

-- What the insert meets: nothing, the row of the same business attempt, another active saga on the
-- transition of the contract, which a partial unique index refuses, or a row of the same business
-- attempt that the read after it no longer finds.
pub data Existing : Type 0 where
  nothing : Existing
  same_attempt : SagaRow → Existing
  other_owner : Existing
  vanished : Existing

pub record Prepared : Type 0 where
  pub saga : SagaRow
  pub outbox : Option OutboxRow
  pub replayed : Bool

abbrev pub new_row : Saga → SagaRow
new_row s = record {
  state = s.state;
  snapshot = s;
  version = 1;
  last_error_code = none;
  last_error_at = none;
  next_reconcile_at = none;
}

abbrev pub new_outbox : ℕ → FinancialCommand → OutboxRow
new_outbox now c = record {
  operation_key = c.operation_key;
  payload_digest = c.payload_digest;
  command = c;
  status = pending;
  attempts = 0;
  next_attempt_at = now;
  lease_owner = none;
  lease_until = none;
  delivered_at = none;
  last_error_code = none;
}

abbrev pub same_version : ℤ → ℤ → Bool
same_version a b = leb_ℤ a b && leb_ℤ b a

-- A replay may not change what was asked for.
abbrev pub changes_intent : SagaRow → Saga → Bool
changes_intent row s =
    not (row.snapshot.primary_payload_digest == s.primary_payload_digest)
    || not (row.snapshot.contract_id == s.contract_id)
    || not (same_version row.snapshot.contract_version s.contract_version)

abbrev pub insert_or_replay : ℕ → Existing → Saga → Option FinancialCommand → Result Prepared
insert_or_replay now existing s none = err invalid_saga_state
insert_or_replay now nothing s (some c) =
    ok (record { saga = new_row s; outbox = some (new_outbox now c); replayed = false })
insert_or_replay now (same_attempt row) s (some c) =
    if changes_intent row s
    then err saga_idempotency_conflict
    else ok (record { saga = row; outbox = none; replayed = true })
insert_or_replay now other_owner s (some c) = err unique_violation
insert_or_replay now vanished s (some c) = err saga_already_active

unfoldable pub prepare_saga_intent : Platform → ℕ → Existing → Saga → Result Prepared
unfolding build_financial_command
prepare_saga_intent p now existing s = do
  command ← build_financial_command p s
  insert_or_replay now existing s command

unfoldable pub mark_persisted_saga_local_transition_committed :
    Platform → String → Store → Result Store
unfolding mark_local_transition_committed
mark_persisted_saga_local_transition_committed p local_contract_state s = do
  next ← mark_local_transition_committed p s.saga.snapshot local_contract_state
  ok (record s {
    saga = record s.saga {
      state = next.state;
      snapshot = next;
      version = s.saga.version + 1;
      next_reconcile_at = none;
    };
  })
