-- ===== src/Core.antt =====
-- src/services/core.js: the entities of a world, the log of life events and the commands.
pub mod Events
pub mod Commands
pub mod Receipts
mod Tests
