-- ===== src/Tests.antt =====
-- Runs of the definitions on small inputs, and each theorem at an input that meets its hypotheses.
mod Grpc
mod Plugins
mod Alerting
mod Federation
mod Link
mod Sandbox
mod Collector
mod Settings
mod Updates
mod Scheduler
mod Stops
mod Checks
mod Tunnels
mod Server
mod Tagger
