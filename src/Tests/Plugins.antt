-- ===== src/Tests/Plugins.antt =====
-- Runs of the plugin gateway.
use nodeagentx.Prelude.{◌+◌, ◌≡◌, refl, String, true, false, some, List, [], ◌∷◌, arith}
use nodeagentx.Prelude.Maps.{lookup, insert, copy}
use nodeagentx.Plugins.Names.{is_valid_name}
use nodeagentx.Plugins.Gateway.{
  running, Manifest, ManagedPlugin, Gateway, Launch, launched, Check, load_plugin, stop_plugin,
  start, stop, run, new_gateway, Op, starts, checks, disables, step, health_check_all,
  should_restart, health_check, merge_plugin_config,
}
use nodeagentx.Plugins.Gateway.Restarts.{never_gives_up}
use nodeagentx.Plugins.Gateway.Processes.{started, killed, held}
use nodeagentx.Plugins.Gateway.NoLeak.{run_accounts, start_same_name_leaks}
use nodeagentx.Plugins.Gateway.Backoff.{restart_backoff, restart_backoff-eq-capped_doubling}

abbrev manifest : String → Manifest
manifest name = record { name = name; task_types = "scan" ∷ []; config = [] }

-- Every ping fails, and every restart works and yields the process 2.
abbrev failing : String → Check
failing name = record { ping_ok = false; stopped_in_backoff = false; launch = launched 2 }

abbrev history : List Op
history =
    starts ((manifest "a", launched 1) ∷ []) ∷ checks failing ∷ checks failing ∷ checks failing ∷ []

-- The plugin that runs after three failed pings with a limit of one restart.
abbrev survivor : ManagedPlugin
survivor = record {
  manifest = manifest "a";
  process = some 2;
  client = true;
  status = running;
  restart_count = 0;
}

never_gives_up_example :
    (survivor.restart_count ≡ 0) × (should_restart (run history (new_gateway [] 1)) survivor ≡ true)
unfolding run step start load_plugin new_gateway health_check_all stop_plugin lookup insert
    is_valid_name merge_plugin_config copy should_restart health_check
never_gives_up_example = never_gives_up [] 1 history "a" survivor (omega arith) refl

abbrev two_plugins : List (Manifest × Launch)
two_plugins = (manifest "a", launched 1) ∷ (manifest "b", launched 3) ∷ []

run_accounts_example :
    let g = run (checks failing ∷ disables "b" ∷ []) (start two_plugins (new_gateway [] 3)) in
    started 2 g.effects ≡ killed 2 g.effects + held 2 g.plugins
run_accounts_example =
    run_accounts [] 3 two_plugins (checks failing ∷ disables "b" ∷ []) 2 ((refl, tt), (tt, tt))
      (tt, (tt, tt))

start_same_name_leaks_example :
    let g =
      stop
        (start ((manifest "a", launched 1) ∷ (manifest "a", launched 3) ∷ []) (new_gateway [] 3)) in
    (started 1 g.effects ≡ 1) × (killed 1 g.effects ≡ 0)
unfolding is_valid_name
start_same_name_leaks_example =
    start_same_name_leaks [] 3 (manifest "a") (manifest "a") 1 3 refl refl (omega arith)

restart_backoff-eq-capped_doubling_example : restart_backoff 5_000_000_000 3 ≡ 40_000_000_000
restart_backoff-eq-capped_doubling_example =
    restart_backoff-eq-capped_doubling 5_000_000_000 3 (omega arith)

-- The first delay is not capped.
long_first_delay : restart_backoff 90_000_000_000 0 ≡ 90_000_000_000
unfolding restart_backoff
long_first_delay = refl

abbrev one_plugin : Gateway
one_plugin = record {
  plugins = ("a", survivor) ∷ [];
  plugin_configs = [];
  max_restarts = 3;
  effects = [];
}
