-- ===== src/Alerting.antt =====
-- internal/alerting: the rules, the text of their conditions, and the engine.
pub mod Rules
pub mod Pattern
pub mod Operators
pub mod Lifecycle
pub mod Engine
pub mod Alerts
