-- ===== src/Sandbox.antt =====
-- internal/sandbox: what may run, and how output is passed on.
pub mod Policy
pub mod Decisions
pub mod Streamer
