-- ===== src/Sandbox.antt =====
-- src/services/sandbox_contract.js: what a sandbox may be asked to do and what it may answer.
mod Text
mod Request
mod Result
mod Exit
mod Paths
mod Artifacts
mod Limits
mod Tests
