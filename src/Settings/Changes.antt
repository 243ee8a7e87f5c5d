-- ===== src/Settings/Changes.antt =====
-- The rest of internal/config/diff.go: the sections that hold lists, and Diff itself.
use nodeagentx.Prelude.{
  ℕ, ◌+◌, false, not, ◌&&◌, none, some, List, [], ◌∷◌, ◌++◌, ◌==◌, str_eq, length, if◌then◌else◌,
}
use nodeagentx.Prelude.Int.{pos, eq_ℤ}
use nodeagentx.Settings.Sections.{GatewayHostConfig}
use nodeagentx.Settings.Root.{Config}
use nodeagentx.Settings.Checks.{ConfigError}
use nodeagentx.Settings.Validate.{validate}
use nodeagentx.Settings.Diff.{
  DeepEqual, ChangeSet, NonReloadableChange, named, host_field, text, number, flag, strings,
  sandbox_value, plugin_value, host_value, unless_equal, all_changes, mask_secret, same_text,
  same_number, bool_equal, diff_reporter, diff_auth, diff_prometheus, diff_agent, diff_server,
  diff_grpc,
}

abbrev pub executor_changes : DeepEqual → Config → Config → List (List NonReloadableChange)
executor_changes D old new =
    same_number "executor.timeout_seconds" old.executor.timeout_seconds new.executor.timeout_seconds
    ∷ unless_equal (D.strings_equal old.executor.allowed_commands new.executor.allowed_commands)
        (named "executor.allowed_commands") (strings old.executor.allowed_commands)
        (strings new.executor.allowed_commands)
    ∷ same_number "executor.max_output_bytes" old.executor.max_output_bytes
        new.executor.max_output_bytes
    ∷ []

unfoldable pub diff_executor : DeepEqual → Config → Config → List NonReloadableChange
diff_executor D old new = all_changes (executor_changes D old new)

-- The body of diffGateway's loop at the i-th hosts.
abbrev pub host_changes :
    ℕ → GatewayHostConfig → GatewayHostConfig → List (List NonReloadableChange)
host_changes i oh nh =
    unless_equal (str_eq oh.id nh.id && str_eq oh.addr nh.addr && str_eq oh.mode nh.mode)
      (host_field i "") (host_value oh) (host_value nh)
    ∷ unless_equal (str_eq oh.ssh.user nh.ssh.user) (host_field i ".ssh.user") (text oh.ssh.user)
        (text nh.ssh.user)
    ∷ unless_equal (str_eq oh.ssh.password nh.ssh.password) (host_field i ".ssh.password")
        (text (mask_secret oh.ssh.password)) (text (mask_secret nh.ssh.password))
    ∷ unless_equal (str_eq oh.ssh.key_file nh.ssh.key_file) (host_field i ".ssh.key_file")
        (text oh.ssh.key_file) (text nh.ssh.key_file)
    ∷ unless_equal (eq_ℤ oh.ssh.port nh.ssh.port) (host_field i ".ssh.port") (number oh.ssh.port)
        (number nh.ssh.port)
    ∷ []

unfoldable pub diff_host : ℕ → GatewayHostConfig → GatewayHostConfig → List NonReloadableChange
unfolding mask_secret
diff_host i oh nh = all_changes (host_changes i oh nh)

-- The loop, on lists of one length.
unfoldable pub diff_hosts :
    ℕ → List GatewayHostConfig → List GatewayHostConfig → List NonReloadableChange
unfolding diff_host
diff_hosts i [] new = []
diff_hosts i (oh ∷ old) [] = []
diff_hosts i (oh ∷ old) (nh ∷ new) = diff_host i oh nh ++ diff_hosts (i + 1) old new

abbrev pub gateway_changes : Config → Config → List (List NonReloadableChange)
gateway_changes old new =
    unless_equal (bool_equal old.gateway.enabled new.gateway.enabled) (named "gateway.enabled")
      (flag old.gateway.enabled) (flag new.gateway.enabled)
    ∷ same_text "gateway.listen_addr" old.gateway.listen_addr new.gateway.listen_addr
    ∷ same_number "gateway.max_tunnels" old.gateway.max_tunnels new.gateway.max_tunnels
    ∷ same_number "gateway.tunnel_timeout_seconds" old.gateway.tunnel_timeout_seconds
        new.gateway.tunnel_timeout_seconds
    ∷ same_number "gateway.idle_timeout_seconds" old.gateway.idle_timeout_seconds
        new.gateway.idle_timeout_seconds
    ∷ (if length old.gateway.hosts == length new.gateway.hosts
        then diff_hosts 0 old.gateway.hosts new.gateway.hosts
        else unless_equal false (named "gateway.hosts") (number (pos (length old.gateway.hosts)))
            (number (pos (length new.gateway.hosts))))
    ∷ []

unfoldable pub diff_gateway : Config → Config → List NonReloadableChange
unfolding diff_hosts
diff_gateway old new = all_changes (gateway_changes old new)

-- The result of Diff: an error, or the changes.
pub data Difference : Type 0 where
  invalid_config : ConfigError → Difference
  changes : ChangeSet → List NonReloadableChange → Difference

unfoldable pub change_set : DeepEqual → Config → Config → ChangeSet
change_set D old new = record {
  collector_changed = not (D.collector_equal old.collector new.collector);
  reporter_changed = diff_reporter old new;
  auth_changed = diff_auth old new;
  prometheus_changed = diff_prometheus old new;
  plugin_gateway_changed = not (D.plugin_gateway_equal old.plugin_gateway new.plugin_gateway);
  checker_changed = not (D.checker_equal old.checker new.checker);
  alerting_changed = not (D.alerting_equal old.alerting new.alerting);
}

abbrev pub section_changes : DeepEqual → Config → Config → List (List NonReloadableChange)
section_changes D old new =
    diff_agent old new
    ∷ diff_server old new
    ∷ diff_grpc old new
    ∷ diff_executor D old new
    ∷ unless_equal (D.sandbox_equal old.sandbox new.sandbox) (named "sandbox.*")
        (sandbox_value old.sandbox) (sandbox_value new.sandbox)
    ∷ unless_equal (D.plugin_equal old.plugin new.plugin) (named "plugin.*")
        (plugin_value old.plugin) (plugin_value new.plugin)
    ∷ diff_gateway old new
    ∷ []

unfoldable pub non_reloadable : DeepEqual → Config → Config → List NonReloadableChange
non_reloadable D old new = all_changes (section_changes D old new)

unfoldable pub diff : DeepEqual → Config → Config → Difference
diff D old new = elim (validate new) [
  | none ↦ changes (change_set D old new) (non_reloadable D old new)
  | some e ↦ invalid_config e
]
