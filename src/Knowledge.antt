-- ===== src/Knowledge.antt =====
-- src/ports/knowledge_port.js: the port to the knowledge of Knowledge Ball.
pub mod Refs
pub mod Inputs
pub mod Answers
pub mod Port
pub mod Calls
pub mod Subjects
pub mod Keys
mod Tests
