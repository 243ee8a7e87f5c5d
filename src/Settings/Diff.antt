-- ===== src/Settings/Diff.antt =====
-- internal/config/diff.go: what an update of the configuration changes. reflect.DeepEqual is a
-- parameter: its answer on each type the code calls it at.
use nodeagentx.Prelude.{
  ℕ, ◌-◌, String, Bool, true, false, not, ◌&&◌, List, [], ◌∷◌, ◌++◌, leb, ◌==◌, str_eq,
  if◌then◌else◌, ◌≡◌,
}
use nodeagentx.Prelude.Int.{ℤ, eq_ℤ}
use nodeagentx.Prelude.Text.{join, utf8_length, byte_length}
use Prim.Native.Char.{code}
use nodeagentx.Settings.Sections.{
  ReporterConfig, AuthConfig, PrometheusConfig, PluginConfig, MtlsConfig, SandboxConfig,
  CollectorConfig, PluginGatewayConfig, CheckerConfig, GatewayHostConfig, AlertingConfig,
}
use nodeagentx.Settings.Root.{Config}

-- reflect.DeepEqual
pub record DeepEqual : Type 0 where
  pub collector_equal : CollectorConfig → CollectorConfig → Bool
  pub plugin_gateway_equal : PluginGatewayConfig → PluginGatewayConfig → Bool
  pub checker_equal : CheckerConfig → CheckerConfig → Bool
  pub alerting_equal : AlertingConfig → AlertingConfig → Bool
  pub sandbox_equal : SandboxConfig → SandboxConfig → Bool
  pub plugin_equal : PluginConfig → PluginConfig → Bool
  pub strings_equal : List String → List String → Bool

-- Values that it calls equal are equal.
pub record IsSound (D : DeepEqual) : Type 0 where
  pub sandbox_sound : (a b : SandboxConfig) → D.sandbox_equal a b ≡ true → a ≡ b
  pub plugin_sound : (a b : PluginConfig) → D.plugin_equal a b ≡ true → a ≡ b
  pub strings_sound : (a b : List String) → D.strings_equal a b ≡ true → a ≡ b

pub record ChangeSet : Type 0 where
  pub collector_changed : Bool
  pub reporter_changed : Bool
  pub auth_changed : Bool
  pub prometheus_changed : Bool
  pub plugin_gateway_changed : Bool
  pub checker_changed : Bool
  pub alerting_changed : Bool

-- The name of a field, alone or below a host's.
pub data Field : Type 0 where
  named : String → Field
  host_field : ℕ → String → Field

-- A value of type `any`, of the types that the code stores there.
pub data FieldValue : Type 0 where
  text : String → FieldValue
  number : ℤ → FieldValue
  flag : Bool → FieldValue
  strings : List String → FieldValue
  mtls_value : MtlsConfig → FieldValue
  sandbox_value : SandboxConfig → FieldValue
  plugin_value : PluginConfig → FieldValue
  host_value : GatewayHostConfig → FieldValue

pub record NonReloadableChange : Type 0 where
  pub field : Field
  pub old_val : FieldValue
  pub new_val : FieldValue

-- A change is recorded when the two values are not equal.
abbrev pub unless_equal : Bool → Field → FieldValue → FieldValue → List NonReloadableChange
unless_equal equal f old new =
    if equal then [] else record { field = f; old_val = old; new_val = new } ∷ []

abbrev pub all_changes : List (List NonReloadableChange) → List NonReloadableChange
all_changes [] = []
all_changes (changes ∷ rest) = changes ++ all_changes rest

-- The text less its first n bytes, and its first n bytes. A character that the cut would divide is
-- not part of either.
unfoldable pub drop_bytes : ℕ → String → String
drop_bytes n String.[] = String.[]
drop_bytes n (String.◌∷◌ c s) =
    let rest = drop_bytes (n - utf8_length (code c)) s in if n == 0 then String.◌∷◌ c s else rest

unfoldable pub take_bytes : ℕ → String → String
take_bytes n String.[] = String.[]
take_bytes n (String.◌∷◌ c s) =
    let rest = take_bytes (n - utf8_length (code c)) s in
    if leb (utf8_length (code c)) n then String.◌∷◌ c rest else String.[]

-- s[:2] + "***" + s[len(s)-2:], where the string is longer than 4 bytes.
unfoldable pub mask_secret : String → String
unfolding byte_length
mask_secret s =
    if leb (byte_length s) 4
    then "***"
    else join (take_bytes 2 s) (join "***" (drop_bytes (byte_length s - 2) s))

abbrev pub same_text : String → String → String → List NonReloadableChange
same_text f a b = unless_equal (str_eq a b) (named f) (text a) (text b)

abbrev pub same_number : String → ℤ → ℤ → List NonReloadableChange
same_number f a b = unless_equal (eq_ℤ a b) (named f) (number a) (number b)

-- a != b on these structs
abbrev pub reporter_equal : ReporterConfig → ReporterConfig → Bool
reporter_equal a b =
    str_eq a.mode b.mode
    && str_eq a.endpoint b.endpoint
    && eq_ℤ a.timeout_seconds b.timeout_seconds
    && eq_ℤ a.retry_count b.retry_count
    && eq_ℤ a.retry_interval_ms b.retry_interval_ms

unfoldable pub bool_equal : Bool → Bool → Bool
bool_equal true b = b
bool_equal false b = not b

abbrev pub auth_equal : AuthConfig → AuthConfig → Bool
auth_equal a b = bool_equal a.enabled b.enabled && str_eq a.bearer_token b.bearer_token

abbrev pub prometheus_equal : PrometheusConfig → PrometheusConfig → Bool
prometheus_equal a b =
    bool_equal a.enabled b.enabled
    && str_eq a.path b.path
    && bool_equal a.protect_with_auth b.protect_with_auth

unfoldable pub mtls_equal : MtlsConfig → MtlsConfig → Bool
mtls_equal a b =
    str_eq a.cert_file b.cert_file && str_eq a.key_file b.key_file && str_eq a.ca_file b.ca_file

unfoldable pub diff_reporter : Config → Config → Bool
diff_reporter old new = not (reporter_equal old.reporter new.reporter)

unfoldable pub diff_auth : Config → Config → Bool
diff_auth old new = not (auth_equal old.auth new.auth)

unfoldable pub diff_prometheus : Config → Config → Bool
diff_prometheus old new = not (prometheus_equal old.prometheus new.prometheus)

abbrev pub agent_changes : Config → Config → List (List NonReloadableChange)
agent_changes old new =
    same_text "agent.id" old.agent.id new.agent.id
    ∷ same_text "agent.name" old.agent.name new.agent.name
    ∷ same_number "agent.interval_seconds" old.agent.interval_seconds new.agent.interval_seconds
    ∷ same_number "agent.shutdown_timeout_seconds" old.agent.shutdown_timeout_seconds
        new.agent.shutdown_timeout_seconds
    ∷ []

unfoldable pub diff_agent : Config → Config → List NonReloadableChange
diff_agent old new = all_changes (agent_changes old new)

unfoldable pub diff_server : Config → Config → List NonReloadableChange
diff_server old new = same_text "server.listen_addr" old.server.listen_addr new.server.listen_addr

abbrev pub grpc_changes : Config → Config → List (List NonReloadableChange)
grpc_changes old new =
    same_text "grpc.server_addr" old.grpc.server_addr new.grpc.server_addr
    ∷ unless_equal (str_eq old.grpc.enroll_token new.grpc.enroll_token) (named "grpc.enroll_token")
        (text (mask_secret old.grpc.enroll_token)) (text (mask_secret new.grpc.enroll_token))
    ∷ unless_equal (mtls_equal old.grpc.mtls new.grpc.mtls) (named "grpc.mtls")
        (mtls_value old.grpc.mtls) (mtls_value new.grpc.mtls)
    ∷ same_number "grpc.heartbeat_interval_seconds" old.grpc.heartbeat_interval_seconds
        new.grpc.heartbeat_interval_seconds
    ∷ same_number "grpc.reconnect_initial_backoff_ms" old.grpc.reconnect_initial_backoff_ms
        new.grpc.reconnect_initial_backoff_ms
    ∷ same_number "grpc.reconnect_max_backoff_ms" old.grpc.reconnect_max_backoff_ms
        new.grpc.reconnect_max_backoff_ms
    ∷ same_text "grpc.cache_persist_path" old.grpc.cache_persist_path new.grpc.cache_persist_path
    ∷ []

unfoldable pub diff_grpc : Config → Config → List NonReloadableChange
unfolding mask_secret
diff_grpc old new = all_changes (grpc_changes old new)
