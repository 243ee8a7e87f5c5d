-- ===== src/Settings/Reloaders.antt =====
-- The reloaders that internal/app/agent.go registers, in its order: collector/reload.go,
-- server/reload.go (authentication, Prometheus) and reporter/reload.go. Scheduler.Reload is the
-- parameter `reload`, on a pipeline of any type P.
use nodeagentx.Prelude.{String, Bool, Option, none, some, List, [], ◌∷◌, map, ltb, if◌then◌else◌}
use nodeagentx.Prelude.Text.{is_empty, byte_length}
use nodeagentx.Collector.Scheduler.Rebuild.{PipelinePart, ReloadConfig}
use nodeagentx.Settings.Sections.{CollectorConfig, PluginInstanceConfig}
use nodeagentx.Settings.Root.{Config}
use nodeagentx.Settings.Reload.{Reloader}

pub record ServerAuth : Type 0 where
  pub enabled : Bool
  pub bearer_token : String

pub record ServerPrometheus : Type 0 where
  pub enabled : Bool
  pub path : String
  pub protect_with_auth : Bool

-- What the reloaders act on: the scheduler's pipeline and the server's options.
pub record World (P : Type 0) : Type 0 where
  pub pipeline : P
  pub auth : ServerAuth
  pub prometheus : ServerPrometheus

abbrev pub to_part : PluginInstanceConfig → PipelinePart
to_part p = record { part_type = p.plugin_type; config = p.config }

abbrev pub to_reload_config : CollectorConfig → ReloadConfig
to_reload_config cc = record {
  inputs = map to_part cc.inputs;
  processors = map to_part cc.processors;
  aggregators = map to_part cc.aggregators;
  outputs = map to_part cc.outputs;
}

-- The server's options for a configuration.
abbrev pub auth_of : Config → ServerAuth
auth_of c = record { enabled = c.auth.enabled; bearer_token = c.auth.bearer_token }

abbrev pub prometheus_of : Config → ServerPrometheus
prometheus_of c = record {
  enabled = c.prometheus.enabled;
  path = c.prometheus.path;
  protect_with_auth = c.prometheus.protect_with_auth;
}

module _ {P : Type 0} where
  abbrev pub update_auth : ServerAuth → World P → World P
  update_auth a w = record { pipeline = w.pipeline; auth = a; prometheus = w.prometheus }

  abbrev pub update_prometheus : ServerPrometheus → World P → World P
  update_prometheus p w = record { pipeline = w.pipeline; auth = w.auth; prometheus = p }

  abbrev pub update_pipeline : P × Option String → World P → World P × Option String
  update_pipeline (p, e) w = (record { pipeline = p; auth = w.auth; prometheus = w.prometheus }, e)

  unfoldable pub collector_reloader : (ReloadConfig → P → P × Option String) → Reloader (World P)
  collector_reloader reload = record {
    can_reload = λ cs. cs.collector_changed;
    apply_config = λ new w. update_pipeline (reload (to_reload_config new.collector) w.pipeline) w;
    rollback = λ old w. update_pipeline (reload (to_reload_config old.collector) w.pipeline) w;
  }

  unfoldable pub apply_auth : Config → World P → World P × Option String
  apply_auth new w =
      if new.auth.enabled
      then if is_empty new.auth.bearer_token
        then (w, some "bearer_token cannot be empty")
        else if ltb (byte_length new.auth.bearer_token) 32
        then (w, some "bearer_token must be at least 32 characters")
        else (update_auth (auth_of new) w, none)
      else (w, some "auth cannot be disabled via hot-reload (restart required)")

  unfoldable pub auth_reloader : Reloader (World P)
  unfolding apply_auth
  auth_reloader = record {
    can_reload = λ cs. cs.auth_changed;
    apply_config = apply_auth;
    rollback = λ old w. (update_auth (auth_of old) w, none);
  }

  unfoldable pub prometheus_reloader : Reloader (World P)
  prometheus_reloader = record {
    can_reload = λ cs. cs.prometheus_changed;
    apply_config = λ new w. (update_prometheus (prometheus_of new) w, none);
    rollback = λ old w. (update_prometheus (prometheus_of old) w, none);
  }

  -- It writes a line to the log.
  unfoldable pub reporter_reloader : Reloader (World P)
  reporter_reloader = record {
    can_reload = λ cs. cs.reporter_changed;
    apply_config = λ new w. (w, none);
    rollback = λ old w. (w, none);
  }

  unfoldable pub reloaders : (ReloadConfig → P → P × Option String) → List (Reloader (World P))
  unfolding collector_reloader auth_reloader prometheus_reloader reporter_reloader
  reloaders reload =
      collector_reloader reload ∷ auth_reloader ∷ prometheus_reloader ∷ reporter_reloader ∷ []
