-- ===== src/SagaWorker/Steps.antt =====
-- A dispatch is made of transactions of the store.
use new_humans.Prelude.{
  ℕ, String, Bool, true, false, not, ◌||◌, Option, none, some, if◌then◌else◌, Result, ok, fail_if,
  >>=-eq-ok, ok_inj, invalid_saga_worker_input, ◌≡◌, refl, subst, ◌∙◌,
}
use new_humans.Platform.{Platform}
use new_humans.Js.{is_undefined, is_null, text_of, Value, is_string, get}
use new_humans.Js.Text.{is_blank}
use new_humans.SagaStore.Rows.{Store}
use new_humans.SagaStore.Failures.{claim_saga_outbox, record_saga_dispatch_failure}
use new_humans.SagaStore.Results.{record_saga_financial_result}
use new_humans.SagaStore.Agreement.{
  Consistent, SameCommand, claims, fails, records, StoreStep-Consistent,
}
use new_humans.SagaWorker.Dispatch.{
  Reply, answered, threw, DispatchOutcome, dead_lettered, retry_scheduled, needs_reconciliation,
  sent, refused, Dispatched, WorkerOptions, request_for, success_reference, is_falsy, has_identity,
  failure_of, fail_with, record_with, success_result, failure_result, thrown_code, response_code,
  handle_error, handle_success, handle_reply, dispatch_claimed, dispatch_if_claimed,
  dispatch_saga_outbox_once,
}

-- Consistent rows stay consistent, and the operation keeps its key, digest and command.
abbrev Safe : Store → Result Dispatched → Type 0
Safe s o = (d : Dispatched) → o ≡ ok d → (Consistent s → Consistent d.store) × SameCommand s d.store

Safe-if :
    (s : Store) (b : Bool) (x y : Result Dispatched)
    → Safe s x
    → Safe s y
    → Safe s (if b then x else y)
Safe-if s true x y f g = f
Safe-if s false x y f g = g

module _ (p : Platform) (now : ℕ) (w : WorkerOptions) where
  fail_with-Safe :
      (v : WorkerOptions) (code : String) (retryable unknown : Bool) (o : DispatchOutcome)
      (s : Store)
      → Safe s (fail_with now v code retryable unknown o s)
  unfolding fail_with
  fail_with-Safe v code retryable unknown o s d h =
      let (t, e, h1) =
        >>=-eq-ok (record_saga_dispatch_failure now (failure_of v code retryable unknown) s) _ h in
      subst (λ d. (Consistent s → Consistent d.store) × SameCommand s d.store) (ok_inj h1)
        (StoreStep-Consistent p s t (fails now (failure_of v code retryable unknown) e))

  record_with-Safe :
      (result : Value) (o : DispatchOutcome) (s : Store) → Safe s (record_with p now result o s)
  unfolding record_with
  record_with-Safe result o s d h =
      let (r, e, h1) =
        >>=-eq-ok (record_saga_financial_result p now s.outbox.command.operation_key result s) _
          h in
      subst (λ d. (Consistent s → Consistent d.store) × SameCommand s d.store) (ok_inj h1)
        (StoreStep-Consistent p s r.store (records now s.outbox.command.operation_key result e))

  handle_error-Safe : (response : Value) (s : Store) → Safe s (handle_error p now w response s)
  unfolding handle_error
  handle_error-Safe response s =
      let code = response_code response in
      let unknown =
        fail_with-Safe (record w { max_attempts = 5 }) (text_of code) false true
          needs_reconciliation s in
      let again = fail_with-Safe w (text_of code) true false retry_scheduled s in
      let final = record_with-Safe (failure_result s.outbox.command code) refused s in
      let status = get "status" response in
      Safe-if s (is_string status "OUTCOME_UNKNOWN") _ _ unknown
        (Safe-if s (is_string status "TIMEOUT" || is_string status "UNAVAILABLE") _ _ again final)

  handle_success-Safe : (ref : Value) (s : Store) → Safe s (handle_success p now w ref s)
  unfolding handle_success
  handle_success-Safe ref s =
      Safe-if s (is_falsy ref) _ _
        (fail_with-Safe (record w { max_attempts = 5 }) "KB_SUCCESS_MISSING_OPERATION_REFERENCE"
          false true needs_reconciliation s)
        (record_with-Safe (success_result s.outbox.command ref) sent s)

  handle_reply-Safe : (reply : Reply) (s : Store) → Safe s (handle_reply p now w reply s)
  unfolding handle_reply
  handle_reply-Safe (threw confirmed code) s =
      fail_with-Safe w (thrown_code code) confirmed (not confirmed)
        (if confirmed then retry_scheduled else needs_reconciliation) s
  handle_reply-Safe (answered response) s =
      Safe-if s (is_undefined response || is_null response) _ _ (λ d h. cc)
        (Safe-if s
          (is_string (get "status" response) "SUCCEEDED"
            || is_string (get "status" response) "DUPLICATE")
          _ _ (handle_success-Safe (success_reference response s.outbox.command) s)
          (handle_error-Safe response s))

  dispatch_claimed-Safe :
      (request_id : String) (escrow : Value → Reply) (s : Store)
      → Safe s (dispatch_claimed p now w request_id escrow s)
  unfolding dispatch_claimed
  dispatch_claimed-Safe request_id escrow s =
      Safe-if s (not (has_identity s.outbox)) _ _
        (fail_with-Safe (record w { retry_after_ms = 1000; max_attempts = 5 })
          "SAGA_OUTBOX_IDENTITY_MISMATCH" false false dead_lettered s)
        (handle_reply-Safe (escrow (request_for request_id s.outbox.command)) s)

SameCommand-after : (s t u : Store) → SameCommand s t → SameCommand t u → SameCommand s u
SameCommand-after s t u a b = record {
  key = b.key ∙ a.key;
  digest = b.digest ∙ a.digest;
  command = b.command ∙ a.command;
}

after_claim :
    (p : Platform) (now : ℕ) (w : WorkerOptions) (request_id : String) (escrow : Value → Reply)
    (s : Store) (claimed : Option Store) (d : Dispatched)
    → claim_saga_outbox now w.worker_id w.lease_ms s ≡ ok claimed
    → dispatch_if_claimed p now w request_id escrow s claimed ≡ ok d
    → (Consistent s → Consistent d.store) × SameCommand s d.store
after_claim p now w request_id escrow s none d e h =
    subst (λ x. (Consistent s → Consistent x.store) × SameCommand s x.store) (ok_inj h)
      (λ c. c, record { key = refl; digest = refl; command = refl })
after_claim p now w request_id escrow s (some t) d e h =
    let (keeps, same) = StoreStep-Consistent p s t (claims now w.worker_id w.lease_ms e) in
    let (keeps', same') = dispatch_claimed-Safe p now w request_id escrow t d h in
    (λ c. keeps' (keeps c), SameCommand-after s t d.store same same')

-- Whatever the port answers or throws, a dispatch that returns leaves consistent rows consistent, and
-- changes neither the operation key nor the payload digest nor the command of the operation.
pub dispatch-Consistent :
    (p : Platform) (now : ℕ) (w : WorkerOptions) (request_id : String) (escrow : Value → Reply)
    (s : Store) (d : Dispatched)
    → dispatch_saga_outbox_once p now w request_id escrow s ≡ ok d
    → (Consistent s → Consistent d.store) × SameCommand s d.store
unfolding dispatch_saga_outbox_once
dispatch-Consistent p now w request_id escrow s d h =
    let (_, _, h1) = >>=-eq-ok (fail_if (is_blank w.worker_id) invalid_saga_worker_input) _ h in
    let (claimed, e, h2) = >>=-eq-ok (claim_saga_outbox now w.worker_id w.lease_ms s) _ h1 in
    after_claim p now w request_id escrow s claimed d e h2
