-- ===== src/Idempotency.antt =====
-- src/integrations/knowledge-ball/idempotency-retry.js: the digest of a payload, the identity of
-- an attempt across products, and the decision whether to retry.
mod Canonical
mod Attempt
mod Retry
pub mod Payloads
pub mod Reordering
pub mod Identity
pub mod Retries
mod Tests
unfoldable pub use Canonical.{canonicalize_json, canonical_items, canonical_fields, payload_digest}
pub use Attempt.{
  kb_idempotency_contract_version, kb_authority, OperationClass, read, write, funds_write,
  OriginProduct, newhumans, knowledge_ball, AttemptInput, KbAttempt,
}
unfoldable pub use Attempt.{
  require_string, build_cross_product_scope, build_kb_attempt, assert_same_logical_operation,
  assert_duplicate_payload,
}
pub use Retry.{
  default_retry_budget, LookupState, not_checked, found, not_found, unavailable, Outcome, success,
  definitive_failure, retryable_failure, outcome_unknown, Decision, return_stored_result, stop,
  budget_exhausted, query_by_idempotency_key, retry_same_key, RetryState,
}
unfoldable pub use Retry.{total_attempt_limit, decide_retry, assert_funds_retry_safe}
