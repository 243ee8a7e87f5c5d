-- ===== src/Tests/Settings.antt =====
-- Runs of the configuration's validation and reload.
use nodeagentx.Prelude.{ℕ, String, true, false, none, List, [], ◌∷◌, ◌≡◌, refl}
use nodeagentx.Prelude.Int.{pos}
use nodeagentx.Prelude.Text.{
  is_empty, is_white, trim_left, trim_right, trim_space, has_prefix, utf8_length, byte_length,
}
use nodeagentx.Settings.Sections.{
  AuthConfig, CollectorConfig, PluginInstanceConfig, GatewayHostConfig,
}
use nodeagentx.Settings.Root.{Config, CanaryStageConfig}
use nodeagentx.Settings.Checks.{
  check_agent, check_executor, check_reporter, check_auth, check_prometheus, check_plugin,
  check_grpc, check_sandbox, check_plugin_gateway, check_checker,
}
use nodeagentx.Settings.Validate.{
  validate, check_host, check_hosts, check_gateway, check_tracing, check_rules, check_stages,
  check_hub, check_leaf, check_federation,
}
use nodeagentx.Settings.Accepted.{IsRolloutAfter, percentages, validate-IsRollout}

abbrev ssh_host : GatewayHostConfig
ssh_host = record {
  id = "h";
  addr = "10.0.0.1";
  mode = "auto";
  ssh = record { user = "root"; password = ""; key_file = ""; port = pos 22 };
}

abbrev stage : ℕ → CanaryStageConfig
stage n = record { percentage = pos n; wait_seconds = pos 60; auto_rollback = true }

-- A hub with a gateway and a rollout in three stages.
abbrev pub hub_with : AuthConfig → String → CollectorConfig → Config
hub_with auth metrics_path collector = record {
  agent = record {
    id = "a1";
    name = "agent";
    mode = "hub";
    interval_seconds = pos 10;
    shutdown_timeout_seconds = pos 0;
    audit_log = record { enabled = false; path = ""; max_size_mb = pos 0; max_backups = pos 0 };
  };
  server = record { listen_addr = ":80" };
  executor = record {
    timeout_seconds = pos 5;
    allowed_commands = "ls" ∷ [];
    max_output_bytes = pos 1024;
  };
  reporter = record {
    mode = "stdout";
    endpoint = "";
    timeout_seconds = pos 5;
    retry_count = pos 0;
    retry_interval_ms = pos 0;
  };
  auth = auth;
  prometheus = record { enabled = true; path = metrics_path; protect_with_auth = true };
  plugin = record {
    enabled = false;
    runtime_path = "";
    socket_path = "";
    auto_start = false;
    startup_timeout_seconds = pos 0;
    request_timeout_seconds = pos 0;
    max_concurrent_tasks = pos 0;
    max_result_bytes = pos 0;
    chunk_size_bytes = pos 0;
    sandbox_profile = "";
  };
  grpc = record {
    server_addr = "p:9";
    enroll_token = "";
    mtls = record { cert_file = ""; key_file = ""; ca_file = "" };
    heartbeat_interval_seconds = pos 5;
    reconnect_initial_backoff_ms = pos 100;
    reconnect_max_backoff_ms = pos 900;
    cache_persist_path = "";
  };
  sandbox = record {
    enabled = false;
    nsjail_path = "";
    base_workdir = "";
    default_timeout_seconds = pos 0;
    max_concurrent_tasks = pos 0;
    cgroup_base_path = "";
    audit_log_path = "";
    policy = record {
      allowed_commands = [];
      blocked_commands = [];
      blocked_keywords = [];
      allowed_interpreters = [];
      script_max_bytes = pos 0;
      shell_injection_check = false;
    };
    allow_unsandboxed_fallback = false;
  };
  collector = collector;
  plugin_gateway = record {
    enabled = false;
    plugins_dir = "/p";
    startup_timeout_seconds = pos 1;
    health_check_interval_secs = pos 1;
    max_restarts = pos 0;
    restart_backoff_seconds = pos 1;
    file_watch_debounce_secs = pos 1;
    plugin_configs = [];
  };
  checker = record {
    enabled = false;
    max_concurrent = pos 1;
    default_timeout_seconds = pos 1;
    disabled_checkers = [];
  };
  gateway = record {
    enabled = true;
    listen_addr = ":81";
    max_tunnels = pos 2;
    tunnel_timeout_seconds = pos 5;
    idle_timeout_seconds = pos 5;
    hosts = ssh_host ∷ [];
  };
  tracing = record {
    enabled = false;
    receiver = record { grpc_addr = ""; http_addr = "" };
    processor = record { batch_timeout_ms = pos 0; max_batch_size = pos 0 };
    exporter = record { endpoint = ""; protocol = "" };
  };
  alerting = record { enabled = false; rules = [] };
  discovery = record { enabled = false; interval_sec = pos 0; layers = [] };
  updater = record { enabled = false; current_path = ""; backup_path = ""; download_dir = "" };
  wasm = record { enabled = false; plugins_dir = ""; max_modules = pos 0; cache_dir = "" };
  federation = record {
    enabled = true;
    hub = record {
      listen_addr = ":82";
      region = "eu";
      max_leaves = pos 3;
      leaf_heartbeat_timeout_seconds = pos 5;
      metrics_aggregation_interval_sec = pos 5;
      security = record { mtls = record { cert_file = ""; key_file = ""; ca_file = "" }; psk = "" };
      groups = [];
      config_levels = record { global = []; regions = []; groups = []; agents = [] };
      canary = record { strategy = ""; stages = stage 10 ∷ stage 50 ∷ stage 100 ∷ [] };
      operations = record {
        max_concurrent = pos 0;
        default_timeout_seconds = pos 0;
        retry_policy = record { max_retries = pos 0; backoff_seconds = pos 0 };
      };
    };
    leaf = record {
      hub_addr = "";
      reconnect_interval_sec = pos 0;
      report_interval_sec = pos 0;
      fallback = record {
        enabled = false;
        mode = "";
        platform_addr = "";
        check_interval_sec = pos 0;
      };
    };
  };
}

abbrev pub token : String
token = "0123456789abcdef0123456789abcdef"

abbrev pub collector_of : List PluginInstanceConfig → CollectorConfig
collector_of inputs = record { inputs = inputs; processors = []; aggregators = []; outputs = [] }

abbrev pub hub : Config
hub = hub_with (record { enabled = true; bearer_token = token }) "/metrics" (collector_of [])

pub hub_valid : validate hub ≡ none
unfolding validate check_agent check_executor check_reporter check_auth check_prometheus
    check_plugin check_grpc check_sandbox check_plugin_gateway check_checker check_host check_hosts
    check_gateway check_tracing check_rules check_stages check_hub check_leaf check_federation
    is_empty is_white trim_left trim_right trim_space has_prefix utf8_length byte_length
hub_valid = refl

validate-IsRollout_example : IsRolloutAfter 0 (percentages hub.federation.hub.canary.stages)
validate-IsRollout_example = validate-IsRollout hub hub_valid refl refl
