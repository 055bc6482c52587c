-- ===== src/SagaWorker/Stuck.antt =====
-- When the authority knows no such operation.
use new_humans.Prelude.{
  String, ok, some, refl, ltb, leb, ◌||◌, ℕ, true, false, none, ◌≡◌, sym, subst, ap, ◌∙◌, arith,
  eq_iff,
}
use new_humans.Platform.{Platform}
use new_humans.Saga.{Saga, pending_remote, compensation_pending, reconciliation_required}
use new_humans.Saga.Sound.{Evidence}
use new_humans.Saga.Reach.{Reachable, Reachable-Evidence}
use new_humans.Js.Text.{is_blank}
use new_humans.SagaStore.Rows.{Store, retry_wait, require_text}
use new_humans.SagaStore.Failures.{claim_saga_outbox, taken}
use new_humans.SagaStore.Results.{is_none}
use new_humans.SagaStore.Recovery.{Waiting}
use new_humans.SagaWorker.Reconcile.{
  Reconciled, reconcile_not_found, still_frozen, same_key_retry_scheduled, resent, resend_state,
}

has_primary :
    (p : Platform) (x : Saga)
    → Reachable p x
    → x.state ≡ compensation_pending
    → is_none x.primary_result ≡ false
has_primary p x r h =
    let ((result, present, _), _, _) =
      subst (λ state. Evidence state p x) h (Reachable-Evidence p x r) in
    ap is_none present

-- A refund whose outcome became unknown is never sent again when the authority does not know it: the
-- reconciliation leaves the rows of a saga that was frozen in COMPENSATION_PENDING as they are.
pub refund-still_frozen :
    (p : Platform) (now : ℕ) (x : Saga) (s : Store)
    → Reachable p x
    → x.state ≡ compensation_pending
    → s.saga.snapshot ≡ record x { state = reconciliation_required }
    → reconcile_not_found now s ≡ record { outcome = still_frozen; store = s }
unfolding reconcile_not_found
refund-still_frozen p now x s r h e =
    let primary : is_none s.saga.snapshot.primary_result ≡ false =
      ap (λ y. is_none y.primary_result) e ∙ has_primary p x r h in
    ground arith

-- The rows after a reconciliation that sends the operation of `s` again: what the saga is, and that a
-- claim at `later` takes the outbox row, with the command of `t` under the key of `s`.
pub record Resendable (s t : Store) (now later lease_ms : ℕ) (worker : String) (r : Reconciled)
    : Type 0 where
  pub outcome : r.outcome ≡ same_key_retry_scheduled
  pub snapshot : r.store.saga.snapshot ≡ s.saga.snapshot
  pub state : r.store.saga.state ≡ pending_remote
  pub not_looked_up : r.store.saga.next_reconcile_at ≡ none
  pub status : r.store.outbox.status ≡ retry_wait
  pub due : r.store.outbox.next_attempt_at ≡ now
  pub claimed : Store
  pub claims : claim_saga_outbox later worker lease_ms r.store ≡ ok (some claimed)
  pub key : claimed.outbox.operation_key ≡ s.outbox.operation_key
  pub command : claimed.outbox.command ≡ t.outbox.command

waiting-claims :
    (now later lease_ms : ℕ) (worker : String) (s : Store)
    → is_blank worker ≡ false
    → (ltb lease_ms 1000 || ltb 300000 lease_ms) ≡ false
    → leb now later ≡ true
    → claim_saga_outbox later worker lease_ms (resent now s)
      ≡ ok (some (taken later worker lease_ms (resent now s)))
unfolding claim_saga_outbox require_text
waiting-claims now later lease_ms worker s named lease due = rw (named, lease, due) refl

-- A primary operation whose outcome became unknown is made ready again under the same key when the
-- authority does not know it: the snapshot is the one before the freeze, and the outbox row waits to
-- be sent, due at once, so that any later claim by a named worker with a lease in bounds takes it.
pub resent-snapshot :
    (now later lease_ms : ℕ) (worker : String) (s t : Store)
    → Waiting s
    → s.saga.snapshot.compensation_result ≡ none
    → t.saga.snapshot ≡ record s.saga.snapshot { state = reconciliation_required }
    → t.outbox.operation_key ≡ s.outbox.operation_key
    → is_blank worker ≡ false
    → (ltb lease_ms 1000 || ltb 300000 lease_ms) ≡ false
    → leb now later ≡ true
    → Resendable s t now later lease_ms worker (reconcile_not_found now t)
unfolding reconcile_not_found
resent-snapshot now later lease_ms worker s t w c e k named lease due =
    let primary : is_none t.saga.snapshot.primary_result ≡ true =
      ap (λ y. is_none y.primary_result) e ∙ ap is_none w.no_result in
    let compensation : is_none t.saga.snapshot.compensation_result ≡ true =
      ap (λ y. is_none y.compensation_result) e ∙ ap is_none c in
    let key : t.saga.snapshot.primary_operation_key ≡ t.outbox.operation_key =
      ap (λ y. y.primary_operation_key) e ∙ sym w.primary ∙ sym k in
    let again : resend_state t.outbox.operation_key t.saga.snapshot ≡ pending_remote =
      ground (arith, eq_iff t.saga.snapshot.primary_operation_key t.outbox.operation_key) in
    let chosen : reconcile_not_found now t
        ≡ record { outcome = same_key_retry_scheduled; store = resent now t } =
      ground arith in
    let restored : record t.saga.snapshot {
      state = resend_state t.outbox.operation_key t.saga.snapshot;
    }
        ≡ s.saga.snapshot =
      ap (λ state. record t.saga.snapshot { state = state }) again
      ∙ ap {A = Saga} (λ y. record y { state = pending_remote }) e
      ∙ ap (λ state. record s.saga.snapshot { state = state }) (sym w.snapshot) in
    subst (λ r. Resendable s t now later lease_ms worker r) (sym chosen)
      record {
        outcome = refl;
        snapshot = restored;
        state = again;
        not_looked_up = refl;
        status = refl;
        due = refl;
        claimed = taken later worker lease_ms (resent now t);
        claims = waiting-claims now later lease_ms worker t named lease due;
        key = k;
        command = refl;
      }
