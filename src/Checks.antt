-- ===== src/Checks.antt =====
-- internal/checker: health checks by request. Types models types.go, Executor executor.go and
-- registry.go.
pub mod Types
pub mod Executor
pub mod Reports
