-- ===== src/Memory.antt =====
-- src/ports/memory-port.js: requests for the memory of a subject, which Knowledge Ball keeps.
pub mod Bindings
pub mod Requests
pub mod Scope
pub mod Builders
mod Tests
