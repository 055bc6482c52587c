-- ===== src/Ledger.antt =====
-- src/services/economy.js: the local double-entry ledger, for one world.
pub mod Rows
pub mod Journals
pub mod Transfers
pub mod Reservations
pub mod Fees
pub mod Entities
pub mod Entries
pub mod Books
pub mod Moves
pub mod Updates
pub mod Holds
pub mod Settlements
pub mod Activity
pub mod Reach
pub mod Retries
pub mod Undo
mod Tests
