-- ===== src/Social.antt =====
-- src/services/social_relationships.js: relationships between entities, their versions, and mutual
-- proposals, for one world.
pub mod Rows
pub mod Rules
pub mod Records
pub mod Mutual
pub mod Evidence
pub mod Types
pub mod Sources
pub mod Actions
pub mod Sound
pub mod Valid
pub mod Confirmed
pub mod Steps
pub mod Keeps
pub mod Reach
pub mod History
mod Tests
