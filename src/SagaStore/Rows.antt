-- ===== src/SagaStore/Rows.antt =====
-- The row of a saga, the outbox row of one of its operations and the inbox row for the same key. A
-- snapshot is the saga that was written as JSON; times are in milliseconds.
use new_humans.Prelude.{
  ℕ, ◌+◌, String, Bool, true, false, Option, none, some, Result, fail_if, invalid_saga_input,
}
use new_humans.Js.Text.{is_blank}
use new_humans.Saga.{
  Saga, SagaState, reconciliation_required, completed, compensated, FinancialResult,
}
use new_humans.Saga.{FinancialCommand}

pub record SagaRow : Type 0 where
  pub state : SagaState
  pub snapshot : Saga
  pub version : ℕ
  pub last_error_code : Option String
  pub last_error_at : Option ℕ
  pub next_reconcile_at : Option ℕ

pub data OutboxStatus : Type 0 where
  pending retry_wait leased delivered frozen dead_letter : OutboxStatus

pub record OutboxRow : Type 0 where
  pub operation_key : String
  pub payload_digest : String
  pub command : FinancialCommand
  pub status : OutboxStatus
  pub attempts : ℕ
  pub next_attempt_at : ℕ
  pub lease_owner : Option String
  pub lease_until : Option ℕ
  pub delivered_at : Option ℕ
  pub last_error_code : Option String

pub record Store : Type 0 where
  pub saga : SagaRow
  pub outbox : OutboxRow
  pub inbox : Option FinancialResult

unfoldable pub require_text : String → Result (Unit {0})
unfolding is_blank
require_text s = fail_if (is_blank s) invalid_saga_input

-- `state='RECONCILIATION_REQUIRED'`, in the row and in its snapshot.
abbrev pub freeze : ℕ → String → ℕ → SagaRow → SagaRow
freeze now code reconcile_at row = record row {
  state = reconciliation_required;
  snapshot = record row.snapshot { state = reconciliation_required };
  version = row.version + 1;
  last_error_code = some code;
  last_error_at = some now;
  next_reconcile_at = some reconcile_at;
}

abbrev pub freeze_outbox : String → OutboxRow → OutboxRow
freeze_outbox code o = record o {
  status = frozen;
  lease_owner = none;
  lease_until = none;
  last_error_code = some code;
}

-- `state IN ('COMPLETED','COMPENSATED','FAILED')`.
abbrev pub is_final : SagaState → Bool
is_final completed = true
is_final compensated = true
is_final SagaState.failed = true
is_final _ = false
