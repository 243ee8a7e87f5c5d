-- ===== src/Settings/Sections.antt =====
-- The sections of internal/config/config.go up to the federation. An `int` may be negative; a value of
-- a `map[string]any` is opaque, and a float64 is the number of its bits.
use nodeagentx.Prelude.{ℕ, String, Bool, List}
use nodeagentx.Prelude.Int.{ℤ}
use nodeagentx.Prelude.Maps.{Map}

pub record AuditLogConfig : Type 0 where
  pub enabled : Bool
  pub path : String
  pub max_size_mb : ℤ
  pub max_backups : ℤ

pub record AgentConfig : Type 0 where
  pub id : String
  pub name : String
  pub mode : String
  pub interval_seconds : ℤ
  pub shutdown_timeout_seconds : ℤ
  pub audit_log : AuditLogConfig

pub record ServerConfig : Type 0 where
  pub listen_addr : String

pub record ExecutorConfig : Type 0 where
  pub timeout_seconds : ℤ
  pub allowed_commands : List String
  pub max_output_bytes : ℤ

pub record ReporterConfig : Type 0 where
  pub mode : String
  pub endpoint : String
  pub timeout_seconds : ℤ
  pub retry_count : ℤ
  pub retry_interval_ms : ℤ

pub record AuthConfig : Type 0 where
  pub enabled : Bool
  pub bearer_token : String

pub record PrometheusConfig : Type 0 where
  pub enabled : Bool
  pub path : String
  pub protect_with_auth : Bool

pub record PluginConfig : Type 0 where
  pub enabled : Bool
  pub runtime_path : String
  pub socket_path : String
  pub auto_start : Bool
  pub startup_timeout_seconds : ℤ
  pub request_timeout_seconds : ℤ
  pub max_concurrent_tasks : ℤ
  pub max_result_bytes : ℤ
  pub chunk_size_bytes : ℤ
  pub sandbox_profile : String

pub record MtlsConfig : Type 0 where
  pub cert_file : String
  pub key_file : String
  pub ca_file : String

pub record GrpcConfig : Type 0 where
  pub server_addr : String
  pub enroll_token : String
  pub mtls : MtlsConfig
  pub heartbeat_interval_seconds : ℤ
  pub reconnect_initial_backoff_ms : ℤ
  pub reconnect_max_backoff_ms : ℤ
  pub cache_persist_path : String

pub record PolicyConfig : Type 0 where
  pub allowed_commands : List String
  pub blocked_commands : List String
  pub blocked_keywords : List String
  pub allowed_interpreters : List String
  pub script_max_bytes : ℤ
  pub shell_injection_check : Bool

pub record SandboxConfig : Type 0 where
  pub enabled : Bool
  pub nsjail_path : String
  pub base_workdir : String
  pub default_timeout_seconds : ℤ
  pub max_concurrent_tasks : ℤ
  pub cgroup_base_path : String
  pub audit_log_path : String
  pub policy : PolicyConfig
  pub allow_unsandboxed_fallback : Bool

pub record PluginInstanceConfig : Type 0 where
  pub plugin_type : String
  pub config : Map ℕ

pub record CollectorConfig : Type 0 where
  pub inputs : List PluginInstanceConfig
  pub processors : List PluginInstanceConfig
  pub aggregators : List PluginInstanceConfig
  pub outputs : List PluginInstanceConfig

pub record PluginGatewayConfig : Type 0 where
  pub enabled : Bool
  pub plugins_dir : String
  pub startup_timeout_seconds : ℤ
  pub health_check_interval_secs : ℤ
  pub max_restarts : ℤ
  pub restart_backoff_seconds : ℤ
  pub file_watch_debounce_secs : ℤ
  pub plugin_configs : Map (Map ℕ)

pub record CheckerConfig : Type 0 where
  pub enabled : Bool
  pub max_concurrent : ℤ
  pub default_timeout_seconds : ℤ
  pub disabled_checkers : List String

pub record GatewaySshConfig : Type 0 where
  pub user : String
  pub password : String
  pub key_file : String
  pub port : ℤ

pub record GatewayHostConfig : Type 0 where
  pub id : String
  pub addr : String
  pub mode : String
  pub ssh : GatewaySshConfig

pub record GatewayConfig : Type 0 where
  pub enabled : Bool
  pub listen_addr : String
  pub max_tunnels : ℤ
  pub tunnel_timeout_seconds : ℤ
  pub idle_timeout_seconds : ℤ
  pub hosts : List GatewayHostConfig

pub record TracingReceiver : Type 0 where
  pub grpc_addr : String
  pub http_addr : String

pub record TracingProcessor : Type 0 where
  pub batch_timeout_ms : ℤ
  pub max_batch_size : ℤ

pub record TracingExporter : Type 0 where
  pub endpoint : String
  pub protocol : String

pub record TracingConfig : Type 0 where
  pub enabled : Bool
  pub receiver : TracingReceiver
  pub processor : TracingProcessor
  pub exporter : TracingExporter

pub record AlertCondition : Type 0 where
  pub metric : String
  pub operator : String
  pub threshold : ℕ
  pub for_text : String

pub record AlertNotify : Type 0 where
  pub notify_type : String
  pub url : String
  pub headers : Map String

pub record AlertRule : Type 0 where
  pub name : String
  pub condition : AlertCondition
  pub severity : String
  pub notify : List AlertNotify

pub record AlertingConfig : Type 0 where
  pub enabled : Bool
  pub rules : List AlertRule

pub record DiscoveryLayerConfig : Type 0 where
  pub type_ : String
  pub enabled : Bool

pub record DiscoveryConfig : Type 0 where
  pub enabled : Bool
  pub interval_sec : ℤ
  pub layers : List DiscoveryLayerConfig

pub record UpdaterConfig : Type 0 where
  pub enabled : Bool
  pub current_path : String
  pub backup_path : String
  pub download_dir : String

pub record WasmConfig : Type 0 where
  pub enabled : Bool
  pub plugins_dir : String
  pub max_modules : ℤ
  pub cache_dir : String
