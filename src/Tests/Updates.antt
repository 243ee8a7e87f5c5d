-- ===== src/Tests/Updates.antt =====
-- Runs of a configuration's updates, with a comparison of the sections in the place of
-- reflect.DeepEqual.
use nodeagentx.Prelude.{
  ℕ, zero, suc, String, Bool, true, false, ◌&&◌, Option, none, some, List, [], ◌∷◌, ◌≡◌, refl, ◌⊎◌,
  str_eq,
}
use nodeagentx.Prelude.Int.{eq_ℤ, eq_ℤ-eq}
use nodeagentx.Settings.Sections.{PluginConfig, PolicyConfig, SandboxConfig}
use nodeagentx.Settings.Diff.{
  DeepEqual, IsSound, bool_equal, mtls_equal, diff_reporter, diff_auth, diff_prometheus, diff_agent,
  diff_server, diff_grpc,
}
use nodeagentx.Settings.Changes.{
  diff, change_set, non_reloadable, diff_executor, diff_host, diff_hosts, diff_gateway,
}
use nodeagentx.Settings.Reload.{
  ConfigReloader, Yaml, reloader_failed, roll_back, apply_reloaders, apply_difference, apply_parsed,
  apply,
}
use nodeagentx.Settings.Reloaders.{
  World, auth_of, prometheus_of, collector_reloader, apply_auth, auth_reloader, prometheus_reloader,
  reporter_reloader, reloaders,
}
use nodeagentx.Collector.Scheduler.Rebuild.{ReloadConfig}
use nodeagentx.Settings.Root.{Config}
use nodeagentx.Settings.Undone.{pipeline_left}
use nodeagentx.Settings.Updates.{IsUpdated, apply_all, apply_all-IsUpdated, apply-failed}
use nodeagentx.Prelude.Text.{
  is_empty, is_white, trim_left, trim_right, trim_space, has_prefix, utf8_length, byte_length,
}
use nodeagentx.Settings.Checks.{
  check_agent, check_executor, check_reporter, check_auth, check_prometheus, check_plugin,
  check_grpc, check_sandbox, check_plugin_gateway, check_checker,
}
use nodeagentx.Settings.Validate.{
  validate, check_host, check_hosts, check_gateway, check_tracing, check_rules, check_stages,
  check_hub, check_leaf, check_federation,
}
use nodeagentx.Settings.Fixed.{bool_equal-eq, str_eq-eq, and-true, refl-IsKept}
use nodeagentx.Tests.Settings.{hub, hub_with, hub_valid, collector_of}

abbrev every : List Bool → Bool
every [] = true
every (b ∷ bs) = b && every bs

abbrev nth_test : List Bool → ℕ → Bool
nth_test [] i = true
nth_test (b ∷ bs) zero = b
nth_test (b ∷ bs) (suc i) = nth_test bs i

every-nth : (bs : List Bool) → every bs ≡ true → (i : ℕ) → nth_test bs i ≡ true
every-nth [] h i = refl
every-nth (b ∷ bs) h zero = (and-true b (every bs) h).0
every-nth (b ∷ bs) h (suc i) = every-nth bs (and-true b (every bs) h).1 i

unfoldable pub texts_equal : List String → List String → Bool
texts_equal [] [] = true
texts_equal (a ∷ as_before) (b ∷ bs) = str_eq a b && texts_equal as_before bs
texts_equal [] (b ∷ bs) = false
texts_equal (a ∷ as_before) [] = false

texts_equal-eq : (a b : List String) → texts_equal a b ≡ true → a ≡ b
unfolding texts_equal
texts_equal-eq [] [] h = refl
texts_equal-eq (a ∷ as_before) (b ∷ bs) h =
    let (head, tails) = and-true (str_eq a b) (texts_equal as_before bs) h in
    λ i. str_eq-eq a b head i ∷ texts_equal-eq as_before bs tails i
texts_equal-eq [] (b ∷ bs) h = cc h
texts_equal-eq (a ∷ as_before) [] h = cc h

abbrev policy_tests : PolicyConfig → PolicyConfig → List Bool
policy_tests a b =
    texts_equal a.allowed_commands b.allowed_commands
    ∷ texts_equal a.blocked_commands b.blocked_commands
    ∷ texts_equal a.blocked_keywords b.blocked_keywords
    ∷ texts_equal a.allowed_interpreters b.allowed_interpreters
    ∷ eq_ℤ a.script_max_bytes b.script_max_bytes
    ∷ bool_equal a.shell_injection_check b.shell_injection_check
    ∷ []

unfoldable pub policy_equal : PolicyConfig → PolicyConfig → Bool
policy_equal a b = every (policy_tests a b)

policy_equal-eq : (a b : PolicyConfig) → policy_equal a b ≡ true → a ≡ b
unfolding policy_equal
policy_equal-eq a b h =
    let at = every-nth (policy_tests a b) h in
    λ i. record {
      allowed_commands = texts_equal-eq a.allowed_commands b.allowed_commands (at 0) i;
      blocked_commands = texts_equal-eq a.blocked_commands b.blocked_commands (at 1) i;
      blocked_keywords = texts_equal-eq a.blocked_keywords b.blocked_keywords (at 2) i;
      allowed_interpreters = texts_equal-eq a.allowed_interpreters b.allowed_interpreters (at 3) i;
      script_max_bytes = eq_ℤ-eq _ _ (at 4) i;
      shell_injection_check = bool_equal-eq _ _ (at 5) i;
    }

abbrev sandbox_tests : SandboxConfig → SandboxConfig → List Bool
sandbox_tests a b =
    bool_equal a.enabled b.enabled
    ∷ str_eq a.nsjail_path b.nsjail_path
    ∷ str_eq a.base_workdir b.base_workdir
    ∷ eq_ℤ a.default_timeout_seconds b.default_timeout_seconds
    ∷ eq_ℤ a.max_concurrent_tasks b.max_concurrent_tasks
    ∷ str_eq a.cgroup_base_path b.cgroup_base_path
    ∷ str_eq a.audit_log_path b.audit_log_path
    ∷ policy_equal a.policy b.policy
    ∷ bool_equal a.allow_unsandboxed_fallback b.allow_unsandboxed_fallback
    ∷ []

unfoldable pub sandbox_equal : SandboxConfig → SandboxConfig → Bool
sandbox_equal a b = every (sandbox_tests a b)

sandbox_equal-eq : (a b : SandboxConfig) → sandbox_equal a b ≡ true → a ≡ b
unfolding sandbox_equal
sandbox_equal-eq a b h =
    let at = every-nth (sandbox_tests a b) h in
    λ i. record {
      enabled = bool_equal-eq _ _ (at 0) i;
      nsjail_path = str_eq-eq _ _ (at 1) i;
      base_workdir = str_eq-eq _ _ (at 2) i;
      default_timeout_seconds = eq_ℤ-eq _ _ (at 3) i;
      max_concurrent_tasks = eq_ℤ-eq _ _ (at 4) i;
      cgroup_base_path = str_eq-eq _ _ (at 5) i;
      audit_log_path = str_eq-eq _ _ (at 6) i;
      policy = policy_equal-eq a.policy b.policy (at 7) i;
      allow_unsandboxed_fallback = bool_equal-eq _ _ (at 8) i;
    }

abbrev plugin_tests : PluginConfig → PluginConfig → List Bool
plugin_tests a b =
    bool_equal a.enabled b.enabled
    ∷ str_eq a.runtime_path b.runtime_path
    ∷ str_eq a.socket_path b.socket_path
    ∷ bool_equal a.auto_start b.auto_start
    ∷ eq_ℤ a.startup_timeout_seconds b.startup_timeout_seconds
    ∷ eq_ℤ a.request_timeout_seconds b.request_timeout_seconds
    ∷ eq_ℤ a.max_concurrent_tasks b.max_concurrent_tasks
    ∷ eq_ℤ a.max_result_bytes b.max_result_bytes
    ∷ eq_ℤ a.chunk_size_bytes b.chunk_size_bytes
    ∷ str_eq a.sandbox_profile b.sandbox_profile
    ∷ []

unfoldable pub plugin_equal : PluginConfig → PluginConfig → Bool
plugin_equal a b = every (plugin_tests a b)

plugin_equal-eq : (a b : PluginConfig) → plugin_equal a b ≡ true → a ≡ b
unfolding plugin_equal
plugin_equal-eq a b h =
    let at = every-nth (plugin_tests a b) h in
    λ i. record {
      enabled = bool_equal-eq _ _ (at 0) i;
      runtime_path = str_eq-eq _ _ (at 1) i;
      socket_path = str_eq-eq _ _ (at 2) i;
      auto_start = bool_equal-eq _ _ (at 3) i;
      startup_timeout_seconds = eq_ℤ-eq _ _ (at 4) i;
      request_timeout_seconds = eq_ℤ-eq _ _ (at 5) i;
      max_concurrent_tasks = eq_ℤ-eq _ _ (at 6) i;
      max_result_bytes = eq_ℤ-eq _ _ (at 7) i;
      chunk_size_bytes = eq_ℤ-eq _ _ (at 8) i;
      sandbox_profile = str_eq-eq _ _ (at 9) i;
    }

unfoldable pub sections : DeepEqual
unfolding sandbox_equal plugin_equal texts_equal
sections = record {
  collector_equal = λ a b. false;
  plugin_gateway_equal = λ a b. false;
  checker_equal = λ a b. false;
  alerting_equal = λ a b. false;
  sandbox_equal = sandbox_equal;
  plugin_equal = plugin_equal;
  strings_equal = texts_equal;
}

sections-IsSound : IsSound sections
unfolding sections
sections-IsSound = record {
  sandbox_sound = sandbox_equal-eq;
  plugin_sound = plugin_equal-eq;
  strings_sound = texts_equal-eq;
}

-- The text of an update is its number.
abbrev yaml : Yaml
yaml = record {
  Text = ℕ;
  size = λ n. n;
  parse = λ n. elim n [
    | zero ↦ none
    | suc k ↦ elim k [
      | zero ↦ some (hub_with hub.auth "/m" (collector_of []))
      | suc j ↦
          some (hub_with (record { enabled = false; bearer_token = "" }) "/other" (collector_of []))
    ]
  ];
}

-- A pipeline that counts its reloads.
abbrev count_reload : ReloadConfig → ℕ → ℕ × Option String
count_reload c n = (suc n, none)

abbrev started : ConfigReloader (World ℕ)
started = record {
  current = hub;
  world = record { pipeline = 0; auth = auth_of hub; prometheus = prometheus_of hub };
}

started-IsUpdated : IsUpdated hub started
started-IsUpdated = record {
  accepted = hub_valid;
  kept = refl-IsKept hub;
  auth_follows = refl;
  prometheus_follows = refl;
  auth_stays = λ h. h;
}

apply_all-IsUpdated_example :
    IsUpdated hub (apply_all yaml sections (reloaders count_reload) (1 ∷ 2 ∷ 0 ∷ []) started)
apply_all-IsUpdated_example =
    apply_all-IsUpdated sections sections-IsSound count_reload hub yaml (1 ∷ 2 ∷ 0 ∷ []) started
      started-IsUpdated

disabling :
    (apply yaml sections (reloaders count_reload) 2 started).1
    ≡ some (reloader_failed "auth cannot be disabled via hot-reload (restart required)")
unfolding apply apply_parsed apply_difference apply_reloaders roll_back reloaders collector_reloader
    auth_reloader apply_auth prometheus_reloader reporter_reloader diff change_set non_reloadable
    diff_reporter diff_auth diff_prometheus diff_agent diff_server diff_grpc diff_executor diff_host
    diff_hosts diff_gateway bool_equal mtls_equal eq_ℤ sections validate check_agent check_executor
    check_reporter check_auth check_prometheus check_plugin check_grpc check_sandbox
    check_plugin_gateway check_checker check_host check_hosts check_gateway check_tracing
    check_rules check_stages check_hub check_leaf check_federation is_empty is_white trim_left
    trim_right trim_space has_prefix utf8_length byte_length policy_equal
disabling = refl

apply-failed_example :
    let out = apply yaml sections (reloaders count_reload) 2 started in
    (out.0.current ≡ hub)
    × (out.0.world.auth ≡ auth_of hub)
    × (out.0.world.prometheus ≡ prometheus_of hub)
    × ((out ≡ (
      started,
      some (reloader_failed "auth cannot be disabled via hot-reload (restart required)"),
    ))
        ⊎ ((new : Config) × (yaml.parse 2 ≡ some new)
            × (out.0.world.pipeline ≡ pipeline_left count_reload sections hub new 0)))
apply-failed_example =
    apply-failed sections sections-IsSound count_reload hub yaml 2 started started-IsUpdated
      (reloader_failed "auth cannot be disabled via hot-reload (restart required)") disabling
