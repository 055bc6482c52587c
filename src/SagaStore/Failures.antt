-- ===== src/SagaStore/Failures.antt =====
-- The claim of an outbox row and a failed dispatch.
use new_humans.Prelude.{
  ℕ, ◌+◌, String, Bool, true, false, not, ◌&&◌, ◌||◌, ◌==◌, leb, ltb, Option, none, some,
  if◌then◌else◌, Result, ok, fail_if, ◌>>◌, invalid_saga_input, saga_outbox_lease_lost,
}
use new_humans.SagaStore.Rows.{
  SagaRow, OutboxStatus, pending, retry_wait, leased, frozen, dead_letter, OutboxRow, Store,
  require_text, freeze, is_final,
}

abbrev pub is_waiting : OutboxStatus → Bool
is_waiting pending = true
is_waiting retry_wait = true
is_waiting _ = false

abbrev pub is_leased : OutboxStatus → Bool
is_leased leased = true
is_leased _ = false

abbrev pub is_past : Option ℕ → ℕ → Bool
is_past none now = false
is_past (some t) now = ltb t now

-- Waiting and due, or leased with a lease that has run out.
abbrev pub is_claimable : ℕ → OutboxRow → Bool
is_claimable now o =
    (is_waiting o.status && leb o.next_attempt_at now)
    || (is_leased o.status && is_past o.lease_until now)

-- The row that a worker holds from `now` on.
abbrev pub taken : ℕ → String → ℕ → Store → Store
taken now worker lease_ms s = record s {
  outbox = record s.outbox {
    status = leased;
    attempts = s.outbox.attempts + 1;
    lease_owner = some worker;
    lease_until = some (now + lease_ms);
  };
}

-- The claim of this row, if it is the candidate.
unfoldable pub claim_saga_outbox : ℕ → String → ℕ → Store → Result (Option Store)
unfolding require_text
claim_saga_outbox now worker lease_ms s = do
  require_text worker
  fail_if (ltb lease_ms 1000 || ltb 300000 lease_ms) invalid_saga_input
  ok (if is_claimable now s.outbox then some (taken now worker lease_ms s) else none)

-- The defaults of the fields are those of the source.
pub record Failure : Type 0 where
  pub lease_owner : String
  pub error_code : String
  pub retryable : Bool
  pub outcome_unknown : Bool
  pub retry_after_ms : ℕ
  pub max_attempts : ℕ

abbrev pub owns : Option String → String → Bool
owns none worker = false
owns (some w) worker = w == worker

abbrev pub status_after : Failure → ℕ → OutboxStatus
status_after f attempts =
    if f.outcome_unknown
    then frozen
    else if f.retryable && ltb attempts f.max_attempts
    then retry_wait
    else dead_letter

-- `retryAfterMs` is a natural number here: at most an hour, and at least nothing.
abbrev pub delay_of : ℕ → ℕ
delay_of ms = if leb ms 3600000 then ms else 3600000

abbrev pub is_dead_letter : OutboxStatus → Bool
is_dead_letter dead_letter = true
is_dead_letter _ = false

abbrev pub noted : ℕ → String → SagaRow → SagaRow
noted now code row = record row {
  last_error_code = some code;
  last_error_at = some now;
  version = row.version + 1;
}

abbrev pub saga_after_failure : ℕ → Failure → OutboxStatus → SagaRow → SagaRow
saga_after_failure now f status row =
    if f.outcome_unknown
    then if is_final row.state
      then row
      else freeze now f.error_code (now + delay_of f.retry_after_ms) row
    else if is_dead_letter status
    then noted now f.error_code row
    else row

unfoldable pub record_saga_dispatch_failure : ℕ → Failure → Store → Result Store
unfolding require_text
record_saga_dispatch_failure now f s = do
  require_text f.lease_owner
  require_text f.error_code
  fail_if (ltb f.max_attempts 1) invalid_saga_input
  fail_if (not (is_leased s.outbox.status) || not (owns s.outbox.lease_owner f.lease_owner))
      saga_outbox_lease_lost
  ok (record s {
    saga = saga_after_failure now f (status_after f s.outbox.attempts) s.saga;
    outbox = record s.outbox {
      status = status_after f s.outbox.attempts;
      next_attempt_at = now + delay_of f.retry_after_ms;
      lease_owner = none;
      lease_until = none;
      last_error_code = some f.error_code;
    };
  })
