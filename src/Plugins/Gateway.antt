-- ===== src/Plugins/Gateway.antt =====
-- internal/pluginruntime/gateway.go and the unloading of watcher.go: the plugins that the gateway
-- runs. Processes, sockets and pings are the environment's, given to an operation as outcomes. The
-- operations run one after another; a `*ManagedPlugin` is reachable under one name only, so the map
-- holds the plugins themselves.
pub mod Restarts
pub mod Processes
pub mod Operations
pub mod NoLeak
pub mod Requests
pub mod Backoff
use nodeagentx.Prelude.{
  ℕ, zero, suc, ◌+◌, ◌*◌, ◌%◌, ◌^◌, String, Bool, true, false, not, ◌&&◌, ◌||◌, Option, none, some,
  List, [], ◌∷◌, ◌++◌, ltb, ◌==◌, if◌then◌else◌, ◌⊎◌, inl, inr,
}
use nodeagentx.Prelude.Maps.{Map, lookup, insert, remove, copy}
use nodeagentx.Plugins.Names.{is_valid_name, parse_full_task_type, Parsed, ParseError}

pub data PluginStatus : Type 0 where
  running stopped error disabled : PluginStatus

pub record Manifest : Type 0 where
  pub name : String
  pub task_types : List String
  pub config : Map ℕ

pub record ManagedPlugin : Type 0 where
  pub manifest : Manifest
  pub process : Option ℕ  -- the pid
  pub client : Bool  -- p.Client != nil
  pub status : PluginStatus
  pub restart_count : ℕ

-- What an operation does outside the gateway, newest first: the processes and the callbacks.
pub data Effect : Type 0 where
  start_process kill_process : ℕ → Effect
  on_loaded on_unloaded : String → List String → Effect

pub record Gateway : Type 0 where
  pub plugins : Map ManagedPlugin
  pub plugin_configs : Map (Map ℕ)
  pub max_restarts : ℕ
  pub effects : List Effect

-- How the system answers `loadPlugin`.
pub data Launch : Type 0 where
  mkdir_fails is_symlink start_fails : Launch
  times_out launched : ℕ → Launch

pub data GatewayError : Type 0 where
  not_found invalid_name not_disabled not_running no_client load_failed : GatewayError
  bad_task_type : ParseError → GatewayError

-- The values of the two configurations are opaque. An empty merge is nil in Go.
unfoldable pub merge_plugin_config : Map ℕ → Map ℕ → Map ℕ
merge_plugin_config manifest_cfg agent_cfg = copy (copy [] manifest_cfg) agent_cfg

-- A missing entry of a map of maps reads as the empty map.
abbrev config_for : Map (Map ℕ) → String → Map ℕ
config_for configs name = elim (lookup name configs) [ none ↦ [] | some m ↦ m ]

abbrev previous_count : Option ManagedPlugin → ℕ
previous_count none = 0
previous_count (some p) = p.restart_count

log : Gateway → Effect → Gateway
log g e = record g { effects = e ∷ g.effects }

store : Gateway → String → ManagedPlugin → Gateway
store g name p = record g { plugins = insert name p g.plugins }

launched_plugin : Gateway → Manifest → ℕ → ManagedPlugin
launched_plugin g m pid = record {
  manifest = m;
  process = some pid;
  client = true;
  status = running;
  restart_count = previous_count (lookup m.name g.plugins);
}

launch : Launch → Manifest → Gateway → Gateway × Option GatewayError
unfolding log store launched_plugin
launch (times_out pid) m g = (log (log g (start_process pid)) (kill_process pid), some load_failed)
launch (launched pid) m g = (
  log (store (log g (start_process pid)) m.name (launched_plugin g m pid))
      (on_loaded m.name m.task_types),
  none,
)
launch _ m g = (g, some load_failed)

unfoldable pub load_plugin : Launch → Manifest → Gateway → Gateway × Option GatewayError
unfolding launch
load_plugin l m g =
    if is_valid_name m.name
    then launch l
        (record m { config = merge_plugin_config m.config (config_for g.plugin_configs m.name) }) g
    else (g, some invalid_name)

abbrev pub kill : Option ℕ → Gateway → Gateway
kill none g = g
kill (some pid) g = record g { effects = kill_process pid ∷ g.effects }

pub stop_entry : PluginStatus → String → ManagedPlugin → Gateway → Gateway
stop_entry stopped name p g = g
stop_entry disabled name p g = g
stop_entry _ name p g =
    let p' = record p { status = stopped; client = false; process = none } in
    let g' = kill p.process (record g { plugins = insert name p' g.plugins }) in
    record g' { effects = on_unloaded name p.manifest.task_types ∷ g'.effects }

-- stopPlugin(name, p), for the entry `p` under `name`.
unfoldable pub stop_plugin : String → ManagedPlugin → Gateway → Gateway
unfolding stop_entry
stop_plugin name p g = stop_entry p.status name p g

pub set_status : PluginStatus → String → Gateway → Gateway
set_status s name g = elim (lookup name g.plugins) [
  | none ↦ g
  | some p ↦ record g { plugins = insert name (record p { status = s }) g.plugins }
]

unfoldable pub reload_plugin : Launch → String → Gateway → Gateway × Option GatewayError
reload_plugin l name g = elim (lookup name g.plugins) [
  | none ↦ (g, some not_found)
  | some p ↦ load_plugin l p.manifest (stop_plugin name p g)
]

is_disabled : PluginStatus → Bool
is_disabled disabled = true
is_disabled _ = false

is_running : PluginStatus → Bool
is_running running = true
is_running _ = false

unfoldable pub enable_plugin : Launch → String → Gateway → Gateway × Option GatewayError
unfolding is_disabled
enable_plugin l name g = elim (lookup name g.plugins) [
  | none ↦ (g, some not_found)
  | some p ↦ if is_disabled p.status then load_plugin l p.manifest g else (g, some not_disabled)
]

unfoldable pub disable_plugin : String → Gateway → Gateway × Option GatewayError
unfolding set_status
disable_plugin name g = elim (lookup name g.plugins) [
  | none ↦ (g, some not_found)
  | some p ↦ (set_status disabled name (stop_plugin name p g), none)
]

-- The `Remove` case of handleFsEvent, when its timer fires.
unfoldable pub unload_plugin : String → Gateway → Gateway
unload_plugin name g = elim (lookup name g.plugins) [
  | none ↦ g
  | some p ↦ let g' = stop_plugin name p g in record g' { plugins = remove name g'.plugins }
]

-- The discovery loop of Start: a plugin that fails to load is logged and passed over.
unfoldable pub start : List (Manifest × Launch) → Gateway → Gateway
start [] g = g
start ((m, l) ∷ ms) g = start ms (load_plugin l m g).0

-- The loop of Stop over a copy of the map, and the map that it leaves.
pub stop_entries : Map ManagedPlugin → Gateway → Gateway
stop_entries [] g = g
stop_entries ((name, p) ∷ ps) g = stop_entries ps (stop_plugin name p g)

unfoldable pub stop : Gateway → Gateway
unfolding stop_entries
stop g = record (stop_entries g.plugins g) { plugins = [] }

-- To which plugin and task a request goes: the checks of ExecuteTask before the call.
route_to : String → String → Option ManagedPlugin → (String × String) ⊎ GatewayError
unfolding is_running
route_to name task none = inr not_found
route_to name task (some p) =
    if not (is_running p.status)
    then inr not_running
    else if p.client
    then inl (name, task)
    else inr no_client

route_parsed : Parsed → Gateway → (String × String) ⊎ GatewayError
unfolding route_to
route_parsed (Parsed.err e) g = inr (bad_task_type e)
route_parsed (Parsed.ok name task) g = route_to name task (lookup name g.plugins)

unfoldable pub execute_task : String → Gateway → (String × String) ⊎ GatewayError
unfolding route_parsed
execute_task task_type g = route_parsed (parse_full_task_type task_type) g

unfoldable pub should_restart : Gateway → ManagedPlugin → Bool
should_restart g p = ltb p.restart_count g.max_restarts

-- What the environment answers while one plugin is checked: the ping, whether the gateway is stopped
-- during the backoff, and the launch.
pub record Check : Type 0 where
  pub ping_ok : Bool
  pub stopped_in_backoff : Bool
  pub launch : Launch

-- After a failed ping. The second part tells that the whole round is over.
restart : Check → String → ManagedPlugin → Gateway → Gateway × Bool
unfolding set_status
restart c name p g =
    let g' = stop_plugin name p g in
    if c.stopped_in_backoff
    then (g', true)
    else (let (g'', failed) = load_plugin c.launch p.manifest g' in
        elim failed [ none ↦ (g'', false) | some e ↦ (set_status error name g'', false) ])

unfoldable pub health_check : Check → String → ManagedPlugin → Gateway → Gateway × Bool
unfolding is_running should_restart restart set_status
health_check c name p g =
    if not (is_running p.status) || not p.client
    then (g, false)
    else if c.ping_ok
    then (g, false)
    else if should_restart g p
    then restart c name p g
    else (set_status error name g, false)

-- The loop of healthCheckAll over a copy of the map; `answers` are the environment's, for each name.
pub health_check_entries : (String → Check) → Map ManagedPlugin → Gateway → Gateway
health_check_entries answers [] g = g
health_check_entries answers ((name, p) ∷ ps) g =
    let (g', over) = health_check (answers name) name p g in
    let rest = health_check_entries answers ps g' in if over then g' else rest

unfoldable pub health_check_all : (String → Check) → Gateway → Gateway
unfolding health_check_entries
health_check_all answers g = health_check_entries answers g.plugins g

-- The operations of a gateway, with the environment's answers.
pub data Op : Type 0 where
  starts : List (Manifest × Launch) → Op
  reloads enables : String → Launch → Op
  disables unloads : String → Op
  checks : (String → Check) → Op
  stops : Op

unfoldable pub step : Op → Gateway → Gateway
step (starts ms) g = start ms g
step (reloads name l) g = (reload_plugin l name g).0
step (enables name l) g = (enable_plugin l name g).0
step (disables name) g = (disable_plugin name g).0
step (unloads name) g = unload_plugin name g
step (checks answers) g = health_check_all answers g
step stops g = stop g

unfoldable pub run : List Op → Gateway → Gateway
run [] g = g
run (op ∷ ops) g = run ops (step op g)

-- NewGateway: no plugin is loaded.
unfoldable pub new_gateway : Map (Map ℕ) → ℕ → Gateway
new_gateway configs max_restarts = record {
  plugins = [];
  plugin_configs = configs;
  max_restarts = max_restarts;
  effects = [];
}
