-- ===== src/Settings/Validate.antt =====
-- The rest of Config.Validate of internal/config/config.go: the sections that hold lists, and the
-- whole. An error names the index of the entry.
use nodeagentx.Prelude.{
  ℕ, ◌+◌, String, Bool, false, not, ◌&&◌, ◌||◌, Option, none, some, List, [], ◌∷◌, str_eq,
  first_error, if◌then◌else◌,
}
use nodeagentx.Prelude.Int.{ℤ, pos, leb_ℤ, ltb_ℤ}
use nodeagentx.Prelude.Text.{is_empty, join}
use nodeagentx.Settings.Sections.{GatewayConfig, GatewayHostConfig, TracingConfig, AlertRule}
use nodeagentx.Settings.Root.{
  Config, CanaryStageConfig, FederationHubConfig, FederationLeafConfig, FederationConfig,
}
use nodeagentx.Settings.Checks.{
  ConfigError, invalid_at, fail_if, only_if, checks, is_blank, is_not_positive, check_agent,
  check_executor, check_reporter, check_auth, check_prometheus, check_plugin, check_grpc,
  check_sandbox, check_plugin_gateway, check_checker,
}

abbrev pub fail_at : Bool → String → ℕ → String → Option ConfigError
fail_at failed path i message = if failed then some (invalid_at path i message) else none

abbrev pub needs_ssh : String → Bool
needs_ssh mode = str_eq mode "proxy" || str_eq mode "auto"

unfoldable pub check_host : ℕ → GatewayHostConfig → Option ConfigError
check_host i h = checks (
    fail_at (is_empty h.id) "gateway.hosts" i ".id is required"
    ∷ fail_at (is_empty h.addr) "gateway.hosts" i ".addr is required"
    ∷ fail_at (not (str_eq h.mode "tunnel" || needs_ssh h.mode)) "gateway.hosts" i
        ".mode must be one of: tunnel, proxy, auto"
    ∷ fail_at (needs_ssh h.mode && is_empty h.ssh.user) "gateway.hosts" i
        (join ".ssh.user is required when mode=" h.mode)
    ∷ fail_at (needs_ssh h.mode && is_not_positive h.ssh.port) "gateway.hosts" i
        (join ".ssh.port must be > 0 when mode=" h.mode)
    ∷ [])

unfoldable pub check_hosts : ℕ → List GatewayHostConfig → Option ConfigError
unfolding check_host
check_hosts i [] = none
check_hosts i (h ∷ hs) = first_error (check_host i h) (check_hosts (i + 1) hs)

abbrev pub gateway_checks : GatewayConfig → List (Option ConfigError)
gateway_checks c =
    fail_if (is_blank c.listen_addr) "gateway.listen_addr is required when gateway.enabled=true"
    ∷ fail_if (is_not_positive c.max_tunnels)
        "gateway.max_tunnels must be > 0 when gateway.enabled=true"
    ∷ fail_if (is_not_positive c.tunnel_timeout_seconds)
        "gateway.tunnel_timeout_seconds must be > 0 when gateway.enabled=true"
    ∷ fail_if (is_not_positive c.idle_timeout_seconds)
        "gateway.idle_timeout_seconds must be > 0 when gateway.enabled=true"
    ∷ check_hosts 0 c.hosts
    ∷ []

unfoldable pub check_gateway : GatewayConfig → Option ConfigError
unfolding check_hosts
check_gateway c = only_if c.enabled (checks (gateway_checks c))

unfoldable pub check_tracing : TracingConfig → Option ConfigError
check_tracing c = only_if c.enabled (
    fail_if (is_empty c.exporter.endpoint)
      "tracing.exporter.endpoint is required when tracing is enabled")

-- validOps[op]
abbrev pub is_operator : String → Bool
is_operator op =
    str_eq op ">"
    || str_eq op "<"
    || str_eq op ">="
    || str_eq op "<="
    || str_eq op "=="
    || str_eq op "!="

unfoldable pub check_rule : ℕ → AlertRule → Option ConfigError
check_rule i r = checks (
    fail_at (is_empty r.name) "alerting.rules" i ".name is required"
    ∷ fail_at (is_empty r.condition.metric) "alerting.rules" i ".condition.metric is required"
    ∷ fail_at (not (is_operator r.condition.operator)) "alerting.rules" i
        ".condition.operator must be one of: >, <, >=, <=, ==, !="
    ∷ [])

unfoldable pub check_rules : ℕ → List AlertRule → Option ConfigError
unfolding check_rule
check_rules i [] = none
check_rules i (r ∷ rs) = first_error (check_rule i r) (check_rules (i + 1) rs)

-- stage.Percentage <= Stages[i-1].Percentage, for i > 0
abbrev pub is_unsorted : Option ℤ → ℤ → Bool
is_unsorted none percentage = false
is_unsorted (some before) percentage = leb_ℤ percentage before

unfoldable pub check_stages : ℕ → Option ℤ → List CanaryStageConfig → Option ConfigError
check_stages i before [] = none
check_stages i before (s ∷ stages) =
    first_error
      (checks (
        fail_at (is_not_positive s.percentage || ltb_ℤ (pos 100) s.percentage)
          "federation.hub.canary.stages" i ".percentage must be 1-100"
        ∷ fail_if (is_unsorted before s.percentage)
            "federation.hub.canary.stages must be sorted by percentage ascending"
        ∷ []))
      (check_stages (i + 1) (some s.percentage) stages)

abbrev pub hub_checks : FederationHubConfig → List (Option ConfigError)
hub_checks c =
    fail_if (is_blank c.listen_addr) "federation.hub.listen_addr is required when agent.mode=hub"
    ∷ fail_if (is_blank c.region) "federation.hub.region is required when agent.mode=hub"
    ∷ fail_if (is_not_positive c.max_leaves)
        "federation.hub.max_leaves must be > 0 when agent.mode=hub"
    ∷ fail_if (is_not_positive c.leaf_heartbeat_timeout_seconds)
        "federation.hub.leaf_heartbeat_timeout_seconds must be > 0 when agent.mode=hub"
    ∷ fail_if (is_not_positive c.metrics_aggregation_interval_sec)
        "federation.hub.metrics_aggregation_interval_seconds must be > 0 when agent.mode=hub"
    ∷ check_stages 0 none c.canary.stages
    ∷ fail_if (not (is_empty c.canary.strategy || str_eq c.canary.strategy "percentage"))
        "federation.hub.canary.strategy must be one of: percentage"
    ∷ []

unfoldable pub check_hub : FederationHubConfig → Option ConfigError
unfolding check_stages
check_hub c = checks (hub_checks c)

unfoldable pub check_leaf : FederationLeafConfig → Option ConfigError
check_leaf c = checks (
    fail_if (is_blank c.hub_addr) "federation.leaf.hub_addr is required when agent.mode=leaf"
    ∷ fail_if (not (is_empty c.fallback.mode || str_eq c.fallback.mode "standalone"))
        "federation.leaf.fallback.mode must be one of: standalone"
    ∷ [])

unfoldable pub check_federation : String → FederationConfig → Option ConfigError
check_federation mode c =
    if c.enabled && str_eq mode "hub"
    then check_hub c.hub
    else if c.enabled && str_eq mode "leaf"
    then check_leaf c.leaf
    else none

-- The sections in their order.
abbrev pub validate_checks : Config → List (Option ConfigError)
validate_checks c =
    check_agent c.agent
    ∷ fail_if (is_empty c.server.listen_addr) "server.listen_addr is required"
    ∷ check_executor c.executor
    ∷ check_reporter c.reporter
    ∷ check_auth c.auth
    ∷ check_prometheus c.prometheus
    ∷ check_plugin c.plugin
    ∷ check_grpc c.grpc
    ∷ check_sandbox c.sandbox
    ∷ check_plugin_gateway c.plugin_gateway
    ∷ check_checker c.checker
    ∷ check_gateway c.gateway
    ∷ check_tracing c.tracing
    ∷ only_if c.alerting.enabled (check_rules 0 c.alerting.rules)
    ∷ check_federation c.agent.mode c.federation
    ∷ []

unfoldable pub validate : Config → Option ConfigError
validate c = checks (validate_checks c)
