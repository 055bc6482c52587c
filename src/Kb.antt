-- ===== src/Kb.antt =====
-- Knowledge Ball as seen from the server: its errors and its readiness (src/shared/kb_errors.js,
-- src/kb/readiness.js).
mod Errors
pub mod Readiness
mod Access
mod Required
mod Decisions
mod Tests
unfoldable pub use Errors.{disposition_of, is_retryable_kb_error, requires_kb_error_reconciliation}
pub use Errors.{KbErrorDisposition, retryable, non_retryable, needs_reconciliation, is_kb_error}
