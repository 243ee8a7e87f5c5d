-- ===== src/Federation/Leaf.antt =====
-- internal/federation/leaf_state.go. A time is a number of nanoseconds.
use nodeagentx.Prelude.{ℕ, String, Bool, List, [], leb, ◌-◌}
use nodeagentx.Prelude.Maps.{Map, copy}

pub data LeafStatus : Type 0 where
  online offline degraded : LeafStatus

pub record LeafState : Type 0 where
  pub agent_id : String
  pub hostname : String
  pub ip : String
  pub version : String
  pub labels : Map String
  pub auto_labels : Map String
  pub groups : List String
  pub last_seen : ℕ
  pub status : LeafStatus
  pub config_version : String

-- time.Since(ls.LastSeen) <= timeout, for a time that is not before `last_seen`.
unfoldable pub is_online : ℕ → ℕ → LeafState → Bool
is_online now timeout leaf = leb (now - leaf.last_seen) timeout

-- Manual labels override automatic ones.
unfoldable pub all_labels : LeafState → Map String
all_labels leaf = copy (copy [] leaf.auto_labels) leaf.labels
