-- ===== src/Federation/Hub.antt =====
-- internal/federation/server.go and the status of internal/federation/hub.go. The mutex makes every
-- request one step. The hub and its group engine hold the same `*LeafState` of an agent, so that a
-- heartbeat, which changes it in place, is written to both. The engine is used by the hub alone.

use nodeagentx.Prelude.{
  ℕ, ◌-◌, String, Bool, true, false, not, none, some, List, [], ◌∷◌, leb, length, if◌then◌else◌,
  str_eq,
}
use nodeagentx.Prelude.Maps.{Map, lookup, insert, copy}
use nodeagentx.Federation.Leaf.{LeafState, LeafStatus, online}
use nodeagentx.Federation.Group.{
  GroupEngine, GroupRule, new_group_engine, evaluate_leaf, update_leaf,
}
use nodeagentx.Federation.Config.{ConfigLevels, Fields, resolve_config}

-- encoding/json and crypto/sha256 make `hash`, strings compare by `after`.
pub record Env : Type 0 where
  pub hash : Fields → String
  pub after : String → String → Bool

pub record HubServer : Type 0 where
  pub region : String
  pub max_leaves : ℕ
  pub levels : ConfigLevels
  pub engine : GroupEngine
  pub leaves : Map LeafState
  pub push_channels : Map (List String)

pub record Registration : Type 0 where
  pub agent_id : String
  pub hostname : String
  pub ip : String
  pub version : String
  pub labels : Map String
  pub auto_labels : Map String

pub data RegisterResponse : Type 0 where
  rejected : ℕ → ℕ → RegisterResponse  -- the counts of the rejection reason
  accepted : String → List String → String → RegisterResponse

pub data HeartbeatResponse : Type 0 where
  unknown_agent : HeartbeatResponse
  alive : String → Bool → HeartbeatResponse  -- ConfigVersion and ConfigUpdateAvailable

unfoldable pub new_hub_server : String → ℕ → List GroupRule → ConfigLevels → HubServer
new_hub_server region max_leaves rules levels = record {
  region = region;
  max_leaves = max_leaves;
  levels = levels;
  engine = new_group_engine rules;
  leaves = [];
  push_channels = [];
}

unfoldable pub get_config_version : Env → ConfigLevels → String → String → List String → String
get_config_version env levels agent region groups =
    env.hash (resolve_config env.after levels agent region groups)

unfoldable pub new_leaf : ℕ → Registration → LeafState
new_leaf now req = record {
  agent_id = req.agent_id;
  hostname = req.hostname;
  ip = req.ip;
  version = req.version;
  labels = req.labels;
  auto_labels = req.auto_labels;
  groups = [];
  last_seen = now;
  status = online;
  config_version = "";
}

-- The shared leaf, as it is in the hub and in the engine.
unfoldable pub share : LeafState → GroupEngine → HubServer → HubServer
share leaf engine s = record s {
  leaves = insert leaf.agent_id leaf s.leaves;
  engine = record engine { leaf_states = insert leaf.agent_id leaf engine.leaf_states };
}

unfoldable pub register : Env → ℕ → Registration → HubServer → HubServer × RegisterResponse
register env now req s =
    if leb s.max_leaves (length s.leaves)
    then (s, rejected (length s.leaves) s.max_leaves)
    else (let leaf = new_leaf now req in
        let groups = evaluate_leaf s.engine leaf in
        let engine = update_leaf leaf s.engine in
        let config = get_config_version env s.levels req.agent_id s.region groups in
        let s' = share (record leaf { groups = groups; config_version = config }) engine s in
        (
          record s' { push_channels = insert req.agent_id [] s'.push_channels },
          accepted s.region groups config,
        ))

-- The engine and the groups of the leaf after the labels of a heartbeat.
unfoldable pub relabel : Map String → LeafState → GroupEngine → GroupEngine × LeafState
relabel [] leaf engine = (engine, leaf)
relabel (l ∷ labels) leaf engine =
    let leaf' = record leaf { labels = l ∷ labels } in
    (update_leaf leaf' engine, record leaf' { groups = evaluate_leaf engine leaf' })

unfoldable pub heartbeat : Env → ℕ → String → Map String → HubServer → HubServer × HeartbeatResponse
heartbeat env now agent labels s = elim (lookup agent s.leaves) [
  | none ↦ (s, unknown_agent)
  | some leaf ↦
      let (engine, leaf') =
        relabel labels (record leaf { last_seen = now; status = online }) s.engine in
      let config = get_config_version env s.levels agent s.region leaf'.groups in
      (share leaf' engine s, alive config (not (str_eq config leaf'.config_version)))
]

unfoldable pub get_leaves : HubServer → Map LeafState
get_leaves s = copy [] s.leaves

is_status_online : LeafStatus → Bool
is_status_online online = true
is_status_online _ = false

-- The loop of HealthStatus over the leaves.
unfoldable pub count_online : Map LeafState → ℕ
unfolding is_status_online
count_online [] = 0
count_online ((k, leaf) ∷ leaves) =
    let rest = count_online leaves in if is_status_online leaf.status then ℕ.suc rest else rest

-- leaves_total, leaves_online, leaves_offline
unfoldable pub health_counts : HubServer → ℕ × ℕ × ℕ
health_counts s =
    let leaves = get_leaves s in
    (length leaves, count_online leaves, length leaves - count_online leaves)

pub data HubOp : Type 0 where
  registers : ℕ → Registration → HubOp
  heartbeats : ℕ → String → Map String → HubOp

unfoldable pub hub_step : Env → HubOp → HubServer → HubServer
hub_step env (registers now req) s = (register env now req s).0
hub_step env (heartbeats now agent labels) s = (heartbeat env now agent labels s).0

-- Requests, newest first.
unfoldable pub hub_run : Env → List HubOp → HubServer → HubServer
hub_run env [] s = s
hub_run env (op ∷ older) s = hub_step env op (hub_run env older s)
