-- ===== src/Federation.antt =====
-- internal/federation: a hub, the leaves that register with it, and their groups.
pub mod Leaf
pub mod Group
pub mod Config
pub mod Merge
pub mod Hub
pub mod Leaves
pub mod Canary
pub mod Rollout
