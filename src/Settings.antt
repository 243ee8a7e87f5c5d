-- ===== src/Settings.antt =====
-- internal/config: the configuration, its validation, and its reload.
pub mod Sections
pub mod Root
pub mod Checks
pub mod Validate
pub mod Accepted
pub mod Diff
pub mod Changes
pub mod Fixed
pub mod Reload
pub mod Outcomes
pub mod Tracking
pub mod Reloaders
pub mod Keepers
pub mod Undone
pub mod Updates
pub mod Stops
