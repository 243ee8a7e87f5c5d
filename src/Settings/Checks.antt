-- ===== src/Settings/Checks.antt =====
-- Config.Validate of internal/config/config.go, section by section: the checks in their order, the
-- first failure being the error.
use nodeagentx.Prelude.{
  ℕ, String, Bool, not, ◌&&◌, ◌||◌, Option, none, some, List, [], ◌∷◌, ltb, any, str_eq,
  first_error, if◌then◌else◌,
}
use nodeagentx.Prelude.Int.{ℤ, pos, leb_ℤ, ltb_ℤ}
use nodeagentx.Prelude.Text.{is_empty, trim_space, has_prefix, byte_length}
use nodeagentx.Settings.Sections.{
  AgentConfig, ExecutorConfig, ReporterConfig, AuthConfig, PrometheusConfig, PluginConfig,
  GrpcConfig, SandboxConfig, PluginGatewayConfig, CheckerConfig,
}

-- The text of an error, or the parts of it around an index.
pub data ConfigError : Type 0 where
  invalid : String → ConfigError
  invalid_at : String → ℕ → String → ConfigError

abbrev pub fail_if : Bool → String → Option ConfigError
fail_if failed message = if failed then some (invalid message) else none

abbrev pub only_if : Bool → Option ConfigError → Option ConfigError
only_if enabled e = if enabled then e else none

-- The first error of several checks.
abbrev pub checks : List (Option ConfigError) → Option ConfigError
checks [] = none
checks (e ∷ es) = first_error e (checks es)

-- strings.TrimSpace(s) == ""
abbrev pub is_blank : String → Bool
is_blank s = is_empty (trim_space s)

-- n <= 0
abbrev pub is_not_positive : ℤ → Bool
is_not_positive n = leb_ℤ n (pos 0)

-- n < 0
abbrev pub is_negative : ℤ → Bool
is_negative n = ltb_ℤ n (pos 0)

abbrev pub is_nil {ℓ} : {A : Type ℓ} → List A → Bool
is_nil xs = elim xs [ [] ↦ Bool.true | x ∷ rest ↦ Bool.false ]

unfoldable pub check_agent : AgentConfig → Option ConfigError
check_agent c = checks (
    fail_if (is_empty c.id) "agent.id is required"
    ∷ fail_if (is_empty c.name) "agent.name is required"
    ∷ fail_if (is_not_positive c.interval_seconds) "agent.interval_seconds must be > 0"
    ∷ [])

unfoldable pub check_executor : ExecutorConfig → Option ConfigError
check_executor c = checks (
    fail_if (is_not_positive c.timeout_seconds) "executor.timeout_seconds must be > 0"
    ∷ fail_if (is_nil c.allowed_commands) "executor.allowed_commands must not be empty"
    ∷ fail_if (any is_blank c.allowed_commands) "executor.allowed_commands contains empty command"
    ∷ fail_if (is_not_positive c.max_output_bytes) "executor.max_output_bytes must be > 0"
    ∷ [])

unfoldable pub check_reporter : ReporterConfig → Option ConfigError
check_reporter c = checks (
    fail_if (not (str_eq c.mode "stdout" || str_eq c.mode "http"))
      "reporter.mode must be one of: stdout, http"
    ∷ fail_if (str_eq c.mode "http" && is_blank c.endpoint)
        "reporter.endpoint is required when reporter.mode=http"
    ∷ fail_if (is_not_positive c.timeout_seconds) "reporter.timeout_seconds must be > 0"
    ∷ fail_if (is_negative c.retry_count) "reporter.retry_count must be >= 0"
    ∷ fail_if (is_negative c.retry_interval_ms) "reporter.retry_interval_ms must be >= 0"
    ∷ [])

abbrev pub auth_checks : AuthConfig → List (Option ConfigError)
auth_checks c =
    fail_if (is_blank c.bearer_token) "auth.bearer_token is required when auth.enabled=true"
    ∷ fail_if (ltb (byte_length (trim_space c.bearer_token)) 32)
        "auth.bearer_token must be at least 32 characters when auth.enabled=true"
    ∷ []

unfoldable pub check_auth : AuthConfig → Option ConfigError
check_auth c = only_if c.enabled (checks (auth_checks c))

unfoldable pub check_prometheus : PrometheusConfig → Option ConfigError
check_prometheus c = only_if c.enabled (
    checks (
      fail_if (is_blank c.path) "prometheus.path is required when prometheus.enabled=true"
      ∷ fail_if (not (has_prefix c.path "/")) "prometheus.path must start with /"
      ∷ []))

unfoldable pub check_plugin : PluginConfig → Option ConfigError
check_plugin c = only_if c.enabled (
    checks (
      fail_if (is_blank c.socket_path) "plugin.socket_path is required when plugin.enabled=true"
      ∷ fail_if (c.auto_start && is_blank c.runtime_path)
          "plugin.runtime_path is required when plugin.auto_start=true"
      ∷ fail_if (is_not_positive c.startup_timeout_seconds)
          "plugin.startup_timeout_seconds must be > 0"
      ∷ fail_if (is_not_positive c.request_timeout_seconds)
          "plugin.request_timeout_seconds must be > 0"
      ∷ fail_if (is_not_positive c.max_concurrent_tasks) "plugin.max_concurrent_tasks must be > 0"
      ∷ fail_if (is_not_positive c.max_result_bytes) "plugin.max_result_bytes must be > 0"
      ∷ fail_if (is_not_positive c.chunk_size_bytes) "plugin.chunk_size_bytes must be > 0"
      ∷ fail_if (is_blank c.sandbox_profile) "plugin.sandbox_profile is required"
      ∷ []))

unfoldable pub check_grpc : GrpcConfig → Option ConfigError
check_grpc c = checks (
    fail_if (is_blank c.server_addr) "grpc.server_addr is required"
    ∷ fail_if (is_not_positive c.heartbeat_interval_seconds)
        "grpc.heartbeat_interval_seconds must be > 0"
    ∷ fail_if (is_not_positive c.reconnect_initial_backoff_ms)
        "grpc.reconnect_initial_backoff_ms must be > 0"
    ∷ fail_if (is_not_positive c.reconnect_max_backoff_ms)
        "grpc.reconnect_max_backoff_ms must be > 0"
    ∷ [])

unfoldable pub check_sandbox : SandboxConfig → Option ConfigError
check_sandbox c = only_if c.enabled (
    checks (
      fail_if (is_blank c.nsjail_path) "sandbox.nsjail_path is required when sandbox.enabled=true"
      ∷ fail_if (is_blank c.base_workdir)
          "sandbox.base_workdir is required when sandbox.enabled=true"
      ∷ fail_if (is_not_positive c.default_timeout_seconds)
          "sandbox.default_timeout_seconds must be > 0"
      ∷ fail_if (is_not_positive c.max_concurrent_tasks) "sandbox.max_concurrent_tasks must be > 0"
      ∷ fail_if (is_blank c.cgroup_base_path)
          "sandbox.cgroup_base_path is required when sandbox.enabled=true"
      ∷ fail_if (is_blank c.audit_log_path)
          "sandbox.audit_log_path is required when sandbox.enabled=true"
      ∷ fail_if (is_nil c.policy.allowed_commands)
          "sandbox.policy.allowed_commands must not be empty when sandbox.enabled=true"
      ∷ fail_if (is_not_positive c.policy.script_max_bytes)
          "sandbox.policy.script_max_bytes must be > 0"
      ∷ []))

unfoldable pub check_plugin_gateway : PluginGatewayConfig → Option ConfigError
check_plugin_gateway c = only_if c.enabled (
    checks (
      fail_if (is_blank c.plugins_dir)
        "plugin_gateway.plugins_dir is required when plugin_gateway.enabled=true"
      ∷ fail_if (is_not_positive c.startup_timeout_seconds)
          "plugin_gateway.startup_timeout_seconds must be > 0"
      ∷ fail_if (is_not_positive c.health_check_interval_secs)
          "plugin_gateway.health_check_interval_seconds must be > 0"
      ∷ fail_if (is_negative c.max_restarts) "plugin_gateway.max_restarts must be >= 0"
      ∷ []))

unfoldable pub check_checker : CheckerConfig → Option ConfigError
check_checker c = only_if c.enabled (
    checks (
      fail_if (is_not_positive c.max_concurrent)
        "checker.max_concurrent must be > 0 when checker.enabled=true"
      ∷ fail_if (is_not_positive c.default_timeout_seconds)
          "checker.default_timeout_seconds must be > 0 when checker.enabled=true"
      ∷ []))
