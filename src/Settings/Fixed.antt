-- ===== src/Settings/Fixed.antt =====
-- What a change that is not rejected leaves as it was.
use nodeagentx.Prelude.{
  ℕ, zero, suc, ◌+◌, String, Bool, true, false, ◌&&◌, List, [], ◌∷◌, ◌++◌, ◌==◌, str_eq, length,
  if◌then◌else◌, ◌≡◌, refl, Bool-cases, inl, inr, arith, eq_iff, ◌∙◌,
}
use nodeagentx.Prelude.Int.{ℤ, eq_ℤ-eq}
use nodeagentx.Settings.Sections.{MtlsConfig, GatewayHostConfig}
use nodeagentx.Settings.Root.{Config}
use nodeagentx.Settings.Diff.{
  DeepEqual, IsSound, NonReloadableChange, Field, FieldValue, unless_equal, all_changes, diff_agent,
  agent_changes, grpc_changes, diff_server, diff_grpc, same_text, same_number, bool_equal,
  mtls_equal,
}
use nodeagentx.Settings.Changes.{
  non_reloadable, executor_changes, host_changes, gateway_changes, section_changes, diff_executor,
  diff_host, diff_hosts, diff_gateway,
}

++-nil {ℓ} : {A : Type ℓ} (xs ys : List A) → (xs ++ ys) ≡ [] → (xs ≡ []) × (ys ≡ [])
++-nil [] ys h = (refl, h)
++-nil (x ∷ xs) ys h = cc h

abbrev nth_change : ℕ → List (List NonReloadableChange) → List NonReloadableChange
nth_change i [] = []
nth_change zero (c ∷ cs) = c
nth_change (suc i) (c ∷ cs) = nth_change i cs

all_changes-nil :
    (cs : List (List NonReloadableChange)) → all_changes cs ≡ [] → (i : ℕ) → nth_change i cs ≡ []
all_changes-nil [] h i = refl
all_changes-nil (c ∷ cs) h zero = (++-nil c (all_changes cs) h).0
all_changes-nil (c ∷ cs) h (suc i) = all_changes-nil cs (++-nil c (all_changes cs) h).1 i

unless_equal-nil :
    (equal : Bool) (f : Field) (a b : FieldValue) → unless_equal equal f a b ≡ [] → equal ≡ true
unless_equal-nil true f a b h = refl
unless_equal-nil false f a b h = cc h

same_text-nil : (f a b : String) → same_text f a b ≡ [] → a ≡ b
same_text-nil f a b h = (eq_iff a b).0 (unless_equal-nil _ _ _ _ h)

same_number-nil : (f : String) (a b : ℤ) → same_number f a b ≡ [] → a ≡ b
same_number-nil f a b h = eq_ℤ-eq a b (unless_equal-nil _ _ _ _ h)

pub and-true : (p q : Bool) → (p && q) ≡ true → (p ≡ true) × (q ≡ true)
and-true true q h = (refl, h)
and-true false q h = cc h

pub bool_equal-eq : (a b : Bool) → bool_equal a b ≡ true → a ≡ b
unfolding bool_equal
bool_equal-eq true true h = refl
bool_equal-eq true false h = cc h
bool_equal-eq false true h = cc h
bool_equal-eq false false h = refl

pub str_eq-eq : (a b : String) → str_eq a b ≡ true → a ≡ b
str_eq-eq a b h = (eq_iff a b).0 h

-- Records of equal fields are equal.
mtls-eq : (a b : MtlsConfig) → mtls_equal a b ≡ true → a ≡ b
unfolding mtls_equal
mtls-eq a b h =
    let (rest, ca) = and-true _ (str_eq a.ca_file b.ca_file) h in
    let (cert, key) =
      and-true (str_eq a.cert_file b.cert_file) (str_eq a.key_file b.key_file) rest in
    λ i. record {
      cert_file = str_eq-eq _ _ cert i;
      key_file = str_eq-eq _ _ key i;
      ca_file = str_eq-eq _ _ ca i;
    }

server-nil : (a b : Config) → diff_server a b ≡ [] → a.server ≡ b.server
unfolding diff_server
server-nil a b h = λ i. record { listen_addr = same_text-nil _ _ _ h i }

grpc-nil : (a b : Config) → diff_grpc a b ≡ [] → a.grpc ≡ b.grpc
unfolding diff_grpc
grpc-nil a b h =
    let at = all_changes-nil (grpc_changes a b) h in
    λ i. record {
      server_addr = same_text-nil _ _ _ (at 0) i;
      enroll_token = str_eq-eq _ _ (unless_equal-nil _ _ _ _ (at 1)) i;
      mtls = mtls-eq _ _ (unless_equal-nil _ _ _ _ (at 2)) i;
      heartbeat_interval_seconds = same_number-nil _ _ _ (at 3) i;
      reconnect_initial_backoff_ms = same_number-nil _ _ _ (at 4) i;
      reconnect_max_backoff_ms = same_number-nil _ _ _ (at 5) i;
      cache_persist_path = same_text-nil _ _ _ (at 6) i;
    }

executor-nil :
    (D : DeepEqual) (sound : IsSound D) (a b : Config)
    → diff_executor D a b ≡ []
    → a.executor ≡ b.executor
unfolding diff_executor
executor-nil D sound a b h =
    let at = all_changes-nil (executor_changes D a b) h in
    λ i. record {
      timeout_seconds = same_number-nil _ _ _ (at 0) i;
      allowed_commands = sound.strings_sound _ _ (unless_equal-nil _ _ _ _ (at 1)) i;
      max_output_bytes = same_number-nil _ _ _ (at 2) i;
    }

host-nil : (k : ℕ) (a b : GatewayHostConfig) → diff_host k a b ≡ [] → a ≡ b
unfolding diff_host
host-nil k a b h =
    let at = all_changes-nil (host_changes k a b) h in
    let (rest, same_mode) = and-true _ (str_eq a.mode b.mode) (unless_equal-nil _ _ _ _ (at 0)) in
    let (same_id, same_addr) = and-true (str_eq a.id b.id) (str_eq a.addr b.addr) rest in
    λ i. record {
      id = str_eq-eq _ _ same_id i;
      addr = str_eq-eq _ _ same_addr i;
      mode = str_eq-eq _ _ same_mode i;
      ssh = record {
        user = str_eq-eq _ _ (unless_equal-nil _ _ _ _ (at 1)) i;
        password = str_eq-eq _ _ (unless_equal-nil _ _ _ _ (at 2)) i;
        key_file = str_eq-eq _ _ (unless_equal-nil _ _ _ _ (at 3)) i;
        port = eq_ℤ-eq _ _ (unless_equal-nil _ _ _ _ (at 4)) i;
      };
    }

hosts-nil :
    (k : ℕ) (as_before bs : List GatewayHostConfig)
    → length as_before ≡ length bs
    → diff_hosts k as_before bs ≡ []
    → as_before ≡ bs
unfolding diff_hosts
hosts-nil k [] [] n h = refl
hosts-nil k [] (b ∷ bs) n h = ground (arith, n)
hosts-nil k (a ∷ rest) [] n h = ground (arith, n)
hosts-nil k (a ∷ rest) (b ∷ bs) n h =
    let (here, later) = ++-nil (diff_host k a b) (diff_hosts (k + 1) rest bs) h in
    let tails = hosts-nil (k + 1) rest bs (omega (arith, n)) later in
    λ i. host-nil k a b here i ∷ tails i

host_list-nil :
    (as_before bs : List GatewayHostConfig) (f : Field) (u v : FieldValue)
    → (if length as_before == length bs
        then diff_hosts 0 as_before bs
        else unless_equal false f u v)
      ≡ []
    → as_before ≡ bs
unfolding diff_hosts
host_list-nil as_before bs f u v h = elim (Bool-cases (length as_before == length bs)) [
  | inl e ↦ hosts-nil 0 as_before bs (ground (arith, e)) (cc (h, e))
  | inr e ↦ cc (h, e)
]

gateway-nil : (a b : Config) → diff_gateway a b ≡ [] → a.gateway ≡ b.gateway
unfolding diff_gateway
gateway-nil a b h =
    let at = all_changes-nil (gateway_changes a b) h in
    λ i. record {
      enabled = bool_equal-eq _ _ (unless_equal-nil _ _ _ _ (at 0)) i;
      listen_addr = same_text-nil _ _ _ (at 1) i;
      max_tunnels = same_number-nil _ _ _ (at 2) i;
      tunnel_timeout_seconds = same_number-nil _ _ _ (at 3) i;
      idle_timeout_seconds = same_number-nil _ _ _ (at 4) i;
      hosts = host_list-nil a.gateway.hosts b.gateway.hosts _ _ _ (at 5) i;
    }

-- What a reload keeps: the identity of the agent and the sections that only a start reads.
pub record IsKept (a b : Config) : Type 0 where
  pub kept_id : a.agent.id ≡ b.agent.id
  pub kept_name : a.agent.name ≡ b.agent.name
  pub kept_interval : a.agent.interval_seconds ≡ b.agent.interval_seconds
  pub kept_shutdown : a.agent.shutdown_timeout_seconds ≡ b.agent.shutdown_timeout_seconds
  pub kept_server : a.server ≡ b.server
  pub kept_grpc : a.grpc ≡ b.grpc
  pub kept_executor : a.executor ≡ b.executor
  pub kept_sandbox : a.sandbox ≡ b.sandbox
  pub kept_plugin : a.plugin ≡ b.plugin
  pub kept_gateway : a.gateway ≡ b.gateway

pub refl-IsKept : (a : Config) → IsKept a a
refl-IsKept a = record {
  kept_id = refl;
  kept_name = refl;
  kept_interval = refl;
  kept_shutdown = refl;
  kept_server = refl;
  kept_grpc = refl;
  kept_executor = refl;
  kept_sandbox = refl;
  kept_plugin = refl;
  kept_gateway = refl;
}

pub trans-IsKept : (a b c : Config) → IsKept a b → IsKept b c → IsKept a c
trans-IsKept a b c p q = record {
  kept_id = p.kept_id ∙ q.kept_id;
  kept_name = p.kept_name ∙ q.kept_name;
  kept_interval = p.kept_interval ∙ q.kept_interval;
  kept_shutdown = p.kept_shutdown ∙ q.kept_shutdown;
  kept_server = p.kept_server ∙ q.kept_server;
  kept_grpc = p.kept_grpc ∙ q.kept_grpc;
  kept_executor = p.kept_executor ∙ q.kept_executor;
  kept_sandbox = p.kept_sandbox ∙ q.kept_sandbox;
  kept_plugin = p.kept_plugin ∙ q.kept_plugin;
  kept_gateway = p.kept_gateway ∙ q.kept_gateway;
}

-- Where reflect.DeepEqual is sound and no change is found that needs a restart, the two
-- configurations agree on the agent's id, name and intervals, and on the whole of the sections
-- server, grpc, executor, sandbox, plugin and gateway.
pub non_reloadable-IsKept :
    (D : DeepEqual) (sound : IsSound D) (old new : Config)
    → non_reloadable D old new ≡ []
    → IsKept old new
unfolding non_reloadable diff_agent
non_reloadable-IsKept D sound old new h =
    let at = all_changes-nil (section_changes D old new) h in
    let agent = all_changes-nil (agent_changes old new) (at 0) in
    record {
      kept_id = same_text-nil _ _ _ (agent 0);
      kept_name = same_text-nil _ _ _ (agent 1);
      kept_interval = same_number-nil _ _ _ (agent 2);
      kept_shutdown = same_number-nil _ _ _ (agent 3);
      kept_server = server-nil old new (at 1);
      kept_grpc = grpc-nil old new (at 2);
      kept_executor = executor-nil D sound old new (at 3);
      kept_sandbox = sound.sandbox_sound _ _ (unless_equal-nil _ _ _ _ (at 4));
      kept_plugin = sound.plugin_sound _ _ (unless_equal-nil _ _ _ _ (at 5));
      kept_gateway = gateway-nil old new (at 6);
    }
