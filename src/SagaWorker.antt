-- ===== src/SagaWorker.antt =====
-- src/services/cross_product_saga_worker.js: one pass of the worker, on the rows of one operation.
mod Dispatch
mod Reconcile
mod Steps
mod Stuck
mod Tests
