-- ===== src/Tests/Stops.antt =====
-- An update whose pipeline cannot be built.
use nodeagentx.Prelude.{String, false, none, some, [], ◌∷◌, ◌≡◌, refl, arith}
use nodeagentx.Prelude.Int.{eq_ℤ}
use nodeagentx.Prelude.Text.{
  is_empty, is_white, trim_left, trim_right, trim_space, has_prefix, utf8_length, byte_length,
}
use nodeagentx.Collector.Scheduler.{Scheduler, health_status}
use nodeagentx.Collector.Scheduler.Rebuild.{ReloadError, unknown_type}
use nodeagentx.Settings.Root.{Config}
use nodeagentx.Settings.Checks.{
  check_agent, check_executor, check_reporter, check_auth, check_prometheus, check_plugin,
  check_grpc, check_sandbox, check_plugin_gateway, check_checker,
}
use nodeagentx.Settings.Validate.{
  validate, check_host, check_hosts, check_gateway, check_tracing, check_rules, check_stages,
  check_hub, check_leaf, check_federation,
}
use nodeagentx.Settings.Diff.{bool_equal, mtls_equal, diff_agent, diff_server, diff_grpc}
use nodeagentx.Settings.Changes.{non_reloadable, diff_executor, diff_host, diff_hosts, diff_gateway}
use nodeagentx.Settings.Reload.{ConfigReloader, Yaml, reloader_failed, apply}
use nodeagentx.Settings.Reloaders.{World, auth_of, prometheus_of, reloaders}
use nodeagentx.Settings.Stops.{reload_pipeline, apply-stops}
use nodeagentx.Tests.Settings.{hub, hub_with, collector_of}
use nodeagentx.Tests.Updates.{sections, sandbox_equal, policy_equal, plugin_equal, texts_equal}
use nodeagentx.Tests.Scheduler.{simple, registry, running, gpu_unknown}

abbrev gpu_hub : Config
gpu_hub =
    hub_with hub.auth "/metrics" (collector_of (record { plugin_type = "gpu"; config = [] } ∷ []))

abbrev gpu_yaml : Yaml
gpu_yaml = record { Text = Unit; size = λ n. 9; parse = λ n. some gpu_hub }

abbrev describe : ReloadError → String
describe e = "reload"

abbrev agent : ConfigReloader (World (Scheduler simple))
agent = record {
  current = hub;
  world = record { pipeline = running; auth = auth_of hub; prometheus = prometheus_of hub };
}

gpu_hub_valid : validate gpu_hub ≡ none
unfolding validate check_agent check_executor check_reporter check_auth check_prometheus
    check_plugin check_grpc check_sandbox check_plugin_gateway check_checker check_host check_hosts
    check_gateway check_tracing check_rules check_stages check_hub check_leaf check_federation
    is_empty is_white trim_left trim_right trim_space has_prefix utf8_length byte_length
gpu_hub_valid = refl

gpu_hub_same : non_reloadable sections hub gpu_hub ≡ []
unfolding non_reloadable diff_agent diff_server diff_grpc diff_executor diff_host diff_hosts
    diff_gateway bool_equal mtls_equal eq_ℤ sections sandbox_equal policy_equal plugin_equal
    texts_equal
gpu_hub_same = refl

gpu_hub_changed : sections.collector_equal hub.collector gpu_hub.collector ≡ false
unfolding sections
gpu_hub_changed = refl

apply-stops_example :
    let out =
      apply gpu_yaml sections (reloaders (reload_pipeline simple registry describe)) tt agent in
    (out.1 ≡ some (reloader_failed "reload"))
    × (out.0.current ≡ hub)
    × (out.0.world.pipeline.workers ≡ [])
    × ((health_status simple out.0.world.pipeline).0 ≡ (health_status simple running).0)
apply-stops_example =
    apply-stops simple registry describe gpu_yaml sections tt agent gpu_hub
      (unknown_type "input" "gpu") (omega arith) refl gpu_hub_valid gpu_hub_same gpu_hub_changed
      gpu_unknown
