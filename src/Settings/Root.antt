-- ===== src/Settings/Root.antt =====
-- The federation section of internal/config/config.go, and the whole configuration.
use nodeagentx.Prelude.{ℕ, String, Bool, List}
use nodeagentx.Prelude.Int.{ℤ}
use nodeagentx.Prelude.Maps.{Map}
use nodeagentx.Settings.Sections.{
  AgentConfig, ServerConfig, ExecutorConfig, ReporterConfig, AuthConfig, PrometheusConfig,
  PluginConfig, MtlsConfig, GrpcConfig, SandboxConfig, CollectorConfig, PluginGatewayConfig,
  CheckerConfig, GatewayConfig, TracingConfig, AlertingConfig, DiscoveryConfig, UpdaterConfig,
  WasmConfig,
}

pub record FederationSecurity : Type 0 where
  pub mtls : MtlsConfig
  pub psk : String

pub record GroupRuleConfig : Type 0 where
  pub name : String
  pub match : Map String

pub record ConfigLevelsConfig : Type 0 where
  pub global : Map ℕ
  pub regions : Map (Map ℕ)
  pub groups : Map (Map ℕ)
  pub agents : Map (Map ℕ)

pub record CanaryStageConfig : Type 0 where
  pub percentage : ℤ
  pub wait_seconds : ℤ
  pub auto_rollback : Bool

pub record CanaryConfig : Type 0 where
  pub strategy : String
  pub stages : List CanaryStageConfig

pub record RetryPolicyConfig : Type 0 where
  pub max_retries : ℤ
  pub backoff_seconds : ℤ

pub record OperationsConfig : Type 0 where
  pub max_concurrent : ℤ
  pub default_timeout_seconds : ℤ
  pub retry_policy : RetryPolicyConfig

pub record FederationHubConfig : Type 0 where
  pub listen_addr : String
  pub region : String
  pub max_leaves : ℤ
  pub leaf_heartbeat_timeout_seconds : ℤ
  pub metrics_aggregation_interval_sec : ℤ
  pub security : FederationSecurity
  pub groups : List GroupRuleConfig
  pub config_levels : ConfigLevelsConfig
  pub canary : CanaryConfig
  pub operations : OperationsConfig

pub record FallbackConfig : Type 0 where
  pub enabled : Bool
  pub mode : String
  pub platform_addr : String
  pub check_interval_sec : ℤ

pub record FederationLeafConfig : Type 0 where
  pub hub_addr : String
  pub reconnect_interval_sec : ℤ
  pub report_interval_sec : ℤ
  pub fallback : FallbackConfig

pub record FederationConfig : Type 0 where
  pub enabled : Bool
  pub hub : FederationHubConfig
  pub leaf : FederationLeafConfig

pub record Config : Type 0 where
  pub agent : AgentConfig
  pub server : ServerConfig
  pub executor : ExecutorConfig
  pub reporter : ReporterConfig
  pub auth : AuthConfig
  pub prometheus : PrometheusConfig
  pub plugin : PluginConfig
  pub grpc : GrpcConfig
  pub sandbox : SandboxConfig
  pub collector : CollectorConfig
  pub plugin_gateway : PluginGatewayConfig
  pub checker : CheckerConfig
  pub gateway : GatewayConfig
  pub tracing : TracingConfig
  pub alerting : AlertingConfig
  pub discovery : DiscoveryConfig
  pub updater : UpdaterConfig
  pub wasm : WasmConfig
  pub federation : FederationConfig
