-- ===== src/Saga.antt =====
-- src/shared/cross_product_saga.js: the state machine of a financial saga between NewHumans and
-- Knowledge Ball.
mod Types
mod Canonical
mod Requests
pub mod Normal
mod Create
mod Guards
pub mod Holds
pub mod Creation
pub mod Sound
pub mod Inversion
pub mod Steps
pub mod Reach
pub mod Outcomes
pub mod Runs
mod Tests
pub mod Commands
pub mod Keys
mod Observe
mod Transitions
pub use Types.{
  SagaKind, contract_activation, contract_settlement, SagaState, pending_remote, remote_succeeded,
  completed, compensation_pending, compensated, reconciliation_required, SagaStep, fund_escrow,
  release_escrow, Status, succeeded, FinancialResult, result_value, Saga,
}
unfoldable pub use Create.{create_saga}
pub use Guards.{is_key}
unfoldable pub use Guards.{assert_saga_invariant}
unfoldable pub use Observe.{read_status, same_result, observe}
pub use Transitions.{FinancialCommand}
unfoldable pub use Transitions.{mark_local_transition_committed, build_financial_command}
