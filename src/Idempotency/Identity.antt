-- ===== src/Idempotency/Identity.antt =====
-- When a retry is taken for the same operation, and which operations share a scope.
pub mod Scope
use new_humans.Prelude.{
  String, ◌≡◌, ◌≢◌, ◌↔◌, refl, sym, ap, ◌∙◌, Bool, true, false, not, ◌==◌, eq_iff, eq_refl, Result,
  ok, err, ◌>>=◌, ◌>>◌, fail_if, arith, Bool-cases, inl, inr,
}
use new_humans.Platform.{Platform}
use new_humans.Js.{Value, string}
use new_humans.Js.Json.{◌<>◌}
use new_humans.Idempotency.Attempt.{KbAttempt, assert_same_logical_operation}

-- What a retry keeps, and the request id that it renews.
pub record IsRetry (existing incoming : KbAttempt) : Type 0 where
  pub same_scope : existing.scope_key ≡ incoming.scope_key
  pub same_correlation : existing.correlation_id ≡ incoming.correlation_id
  pub new_request : existing.request_id ≢ incoming.request_id
  pub same_payload : existing.payload_digest ≡ incoming.payload_digest

-- `assertSameLogicalOperation` accepts an attempt exactly when it keeps the scope, the correlation
-- id and the payload digest of the earlier one and has a new request id.
pub same_operation_iff :
    (existing incoming : KbAttempt)
    → (assert_same_logical_operation existing incoming ≡ ok tt) ↔ IsRetry existing incoming
unfolding assert_same_logical_operation
same_operation_iff a b = (
  λ h. ground (
    arith,
    eq_iff a.scope_key b.scope_key,
    eq_iff a.correlation_id b.correlation_id,
    eq_iff a.request_id b.request_id,
    eq_iff a.payload_digest b.payload_digest,
  ),
  λ r. ground (
    arith,
    r.same_scope,
    eq_iff a.scope_key b.scope_key,
    eq_iff a.correlation_id b.correlation_id,
    eq_iff a.request_id b.request_id,
    eq_iff a.payload_digest b.payload_digest,
  ),
)
