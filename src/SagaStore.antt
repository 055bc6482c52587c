-- ===== src/SagaStore.antt =====
-- src/services/cross_product_saga_store.js: the rows of one saga operation in the database, and the
-- transactions on them.
pub mod Rows
pub mod Failures
pub mod Results
pub mod Transitions
pub mod Agreement
pub mod Recovery
pub mod Replays
pub mod Runs
mod Tests
