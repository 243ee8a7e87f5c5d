-- ===== src/Tests/Federation.antt =====
-- Runs of the groups, the merged configuration and the hub.
use nodeagentx.Prelude.{◌≡◌, refl, ◌≤◌, String, false, Bool, some, List, [], ◌∷◌, length}
use nodeagentx.Prelude.{arith, ◌++◌, true}
use nodeagentx.Prelude.Int.{pos}
use nodeagentx.Federation.Canary.{CanaryStage, agents, select_subset}
use nodeagentx.Federation.Rollout.{select_subset-grows}
use nodeagentx.Prelude.Maps.{lookup, insert, copy}
use nodeagentx.Federation.Leaf.{LeafState, online, all_labels}
use nodeagentx.Federation.Group.{GroupRule, new_group_engine, matching, matches_all, evaluate_leaf}
use nodeagentx.Federation.Group.Index.{is_member}
use nodeagentx.Federation.Group.Membership.{updates, group_run, is_member-group_run}
use nodeagentx.Federation.Config.{
  Fields, object, opaque, no_fields, field, get_field, put_field, deep_merge, merge_value,
  ConfigLevels,
}
use nodeagentx.Federation.Merge.{get_field-deep_merge}
use nodeagentx.Federation.Hub.{
  Env, Registration, HubOp, registers, heartbeats, hub_run, new_hub_server, health_counts,
}
use nodeagentx.Federation.Leaves.{hub_run-is_labelled, hub_run-never_offline, is_labelled}

abbrev web : GroupRule
web = record { name = "web"; match_labels = ("role", "web") ∷ [] }

abbrev leaf : String → LeafState
leaf role = record {
  agent_id = "a";
  hostname = "h";
  ip = "10.0.0.1";
  version = "1";
  labels = ("role", role) ∷ [];
  auto_labels = ("os", "linux") ∷ [];
  groups = [];
  last_seen = 0;
  status = online;
  config_version = "";
}

-- The agent leaves the group when its label changes.
is_member-group_run_example :
    let ge =
      group_run (updates (leaf "db") ∷ updates (leaf "web") ∷ []) (new_group_engine (web ∷ [])) in
    is_member "a" "web" ge.group_index ≡ false
unfolding evaluate_leaf matching matches_all all_labels lookup insert copy new_group_engine
is_member-group_run_example =
    is_member-group_run (web ∷ []) (updates (leaf "db") ∷ updates (leaf "web") ∷ []) "a" "web"

abbrev base : Fields
base = field "log" (opaque 1) (field "net" (object (field "port" (opaque 80) no_fields)) no_fields)

abbrev own : Fields
own = field "net" (object (field "tls" (opaque 1) no_fields)) (field "log" (opaque 2) no_fields)

get_field-deep_merge_example :
    get_field "net" (deep_merge base own)
    ≡ some (object (field "port" (opaque 80) (field "tls" (opaque 1) no_fields)))
unfolding get_field put_field merge_value
get_field-deep_merge_example = get_field-deep_merge "net" base own (refl, (refl, tt))

abbrev levels : ConfigLevels
levels = record { global = base; regions = []; groups = []; agents = ("a", own) ∷ [] }

-- The order of the names is not looked at in these runs.
abbrev unordered : String → String → Bool
unordered x y = false

abbrev env : Env
env = record { hash = λ fields. "v"; after = unordered }

abbrev request : Registration
request = record {
  agent_id = "a";
  hostname = "h";
  ip = "10.0.0.1";
  version = "1";
  labels = ("role", "web") ∷ [];
  auto_labels = [];
}

abbrev requests : List HubOp
requests = heartbeats 7 "a" (("role", "db") ∷ []) ∷ registers 5 request ∷ []

hub_run-is_labelled_example :
    let s = hub_run env requests (new_hub_server "eu" 1 (web ∷ []) levels) in
    (length s.leaves ≤ 1)
    × ((a g : String)
        → is_member a g s.engine.group_index ≡ is_labelled (web ∷ []) g (lookup a s.leaves))
hub_run-is_labelled_example = hub_run-is_labelled env "eu" 1 (web ∷ []) levels requests

hub_run-never_offline_example :
    let s = hub_run env requests (new_hub_server "eu" 1 (web ∷ []) levels) in
    health_counts s ≡ (length s.leaves, length s.leaves, 0)
hub_run-never_offline_example = hub_run-never_offline env "eu" 1 (web ∷ []) levels requests

abbrev canary_stages : List CanaryStage
canary_stages =
    record { percentage = pos 10; wait_seconds = pos 60; auto_rollback = true }
    ∷ record { percentage = pos 50; wait_seconds = pos 60; auto_rollback = true }
    ∷ []

select_subset-grows_example :
    (reached : List String) × (more : List String) × (select_subset canary_stages
        ("a" ∷ "b" ∷ "c" ∷ [])
        (pos 0)
      ≡ agents reached)
    × (select_subset canary_stages ("a" ∷ "b" ∷ "c" ∷ []) (pos 1) ≡ agents (reached ++ more))
    × (1 ≤ length {A = String} ("a" ∷ "b" ∷ "c" ∷ []) → 1 ≤ length reached)
select_subset-grows_example =
    select_subset-grows canary_stages ("a" ∷ "b" ∷ "c" ∷ []) 0 1
      (omega arith, omega arith, (omega arith, omega arith, tt)) (omega arith) (omega arith)
