-- ===== src/Settings/Accepted.antt =====
-- What holds of a configuration that was accepted.
use nodeagentx.Prelude.{
  ℕ, zero, suc, ◌+◌, ◌≤◌, String, ◌≡◌, refl, Bool, true, false, Option, none, some, List, [], ◌∷◌,
  All, map, str_eq, first_error, Bool-cases, inl, inr, ◌&&◌, arith, ◌||◌,
}
use Prim.Native.Char.{code}
use nodeagentx.Prelude.Int.{ℤ, pos, negsuc, ltb_ℤ}
use nodeagentx.Prelude.Text.{is_empty, is_white, trim_space, trim_left, trim_right, byte_length}
use nodeagentx.Settings.Sections.{GatewayHostConfig}
use nodeagentx.Settings.Root.{Config, CanaryStageConfig, FederationConfig}
use nodeagentx.Settings.Checks.{
  ConfigError, only_if, checks, check_auth, auth_checks, is_not_positive,
}
use nodeagentx.Settings.Validate.{
  validate, validate_checks, hub_checks, gateway_checks, check_host, check_hosts, check_gateway,
  check_stages, check_hub, check_federation, needs_ssh, is_unsorted, fail_at,
}

first_error-none :
    (e later : Option ConfigError) → first_error e later ≡ none → (e ≡ none) × (later ≡ none)
first_error-none none later h = (refl, h)
first_error-none (some e) later h = cc h

-- A list of percentages as a rollout takes them: between 1 and 100, each above the one before.
abbrev pub IsRolloutAfter : ℕ → List ℤ → Type 0
IsRolloutAfter before [] = Unit
IsRolloutAfter before (pos n ∷ rest) = (suc before ≤ n) × (n ≤ 100) × IsRolloutAfter n rest
IsRolloutAfter before (negsuc n ∷ rest) = ⊥

abbrev percentage_of : CanaryStageConfig → ℤ
percentage_of s = s.percentage

abbrev pub percentages : List CanaryStageConfig → List ℤ
percentages = map (λ s. s.percentage)

abbrev before_of : Option ℤ → ℕ
before_of none = 0
before_of (some (pos n)) = n
before_of (some (negsuc n)) = 0

-- One stage's checks, by its percentage.
unsorted_lem :
    (before : Option ℤ) (z : ℤ) (rest : List ℤ)
    → (is_not_positive z || ltb_ℤ (pos 100) z) ≡ false
    → is_unsorted before z ≡ false
    → IsRolloutAfter (before_of (some z)) rest
    → IsRolloutAfter (before_of before) (z ∷ rest)
unsorted_lem none (pos n) rest h u r = (ground (arith, h), ground (arith, h), r)
unsorted_lem (some (pos m)) (pos n) rest h u r = (ground (arith, h, u), ground (arith, h), r)
unsorted_lem (some (negsuc m)) (pos n) rest h u r = (ground (arith, h), ground (arith, h), r)
unsorted_lem before (negsuc n) rest h u r = ground (arith, h)

fail_at-none :
    (failed : Bool) (path : String) (i : ℕ) (message : String)
    → fail_at failed path i message ≡ none
    → failed ≡ false
fail_at-none true path i message h = cc h
fail_at-none false path i message h = refl

check_stages-IsRolloutAfter :
    (i : ℕ) (before : Option ℤ) (stages : List CanaryStageConfig)
    → check_stages i before stages ≡ none
    → IsRolloutAfter (before_of before) (percentages stages)
unfolding check_stages
check_stages-IsRolloutAfter i before [] h = tt
check_stages-IsRolloutAfter i before (s ∷ stages) h =
    let (here, later) = first_error-none _ (check_stages (i + 1) (some s.percentage) stages) h in
    let (range, sorted) = first_error-none _ _ here in
    unsorted_lem before s.percentage (percentages stages) (fail_at-none _ _ _ _ range)
      (ground (arith, sorted))
      (check_stages-IsRolloutAfter (i + 1) (some s.percentage) stages later)

-- A host can be reached by its mode.
abbrev pub IsUsable : GatewayHostConfig → Type 0
IsUsable h =
    (is_empty h.id ≡ false)
    × (is_empty h.addr ≡ false)
    × (needs_ssh h.mode ≡ true
        → (is_empty h.ssh.user ≡ false) × (is_not_positive h.ssh.port ≡ false))

check_host-IsUsable : (i : ℕ) (h : GatewayHostConfig) → check_host i h ≡ none → IsUsable h
unfolding check_host
check_host-IsUsable i h e = ground (arith, e)

check_hosts-IsUsable :
    (i : ℕ) (hs : List GatewayHostConfig) → check_hosts i hs ≡ none → All IsUsable hs
unfolding check_hosts
check_hosts-IsUsable i [] e = tt
check_hosts-IsUsable i (h ∷ hs) e =
    let (here, later) = first_error-none (check_host i h) (check_hosts (i + 1) hs) e in
    (check_host-IsUsable i h here, check_hosts-IsUsable (i + 1) hs later)

-- The i-th of several checks.
abbrev nth_check : ℕ → List (Option ConfigError) → Option ConfigError
nth_check i [] = none
nth_check zero (e ∷ es) = e
nth_check (suc i) (e ∷ es) = nth_check i es

checks-none : (es : List (Option ConfigError)) → checks es ≡ none → (i : ℕ) → nth_check i es ≡ none
checks-none [] h i = refl
checks-none (e ∷ es) h zero = (first_error-none e (checks es) h).0
checks-none (e ∷ es) h (suc i) = checks-none es (first_error-none e (checks es) h).1 i

only_if-none :
    (enabled : Bool) (e : Option ConfigError) → only_if enabled e ≡ none → enabled ≡ true → e ≡ none
only_if-none true e h on = h
only_if-none false e h on = cc on

check_federation-hub :
    (mode : String) (c : FederationConfig)
    → check_federation mode c ≡ none
    → c.enabled ≡ true
    → str_eq mode "hub" ≡ true
    → check_hub c.hub ≡ none
unfolding check_federation
check_federation-hub mode c h enabled hub = cc (h, enabled, hub)

-- When a configuration is accepted whose federation is enabled in hub mode, the percentages of its
-- canary stages ascend within 1 to 100.
pub validate-IsRollout :
    (c : Config)
    → validate c ≡ none
    → c.federation.enabled ≡ true
    → str_eq c.agent.mode "hub" ≡ true
    → IsRolloutAfter 0 (percentages c.federation.hub.canary.stages)
unfolding validate check_hub
validate-IsRollout c h enabled hub =
    let accepted =
      check_federation-hub c.agent.mode c.federation (checks-none (validate_checks c) h 14) enabled
        hub in
    check_stages-IsRolloutAfter 0 none c.federation.hub.canary.stages
      (checks-none (hub_checks c.federation.hub) accepted 5)

-- When a configuration is accepted whose gateway is enabled, each of its hosts has an id and an
-- address, and a user and a positive port where its mode connects by SSH.
pub validate-IsUsable :
    (c : Config) → validate c ≡ none → c.gateway.enabled ≡ true → All IsUsable c.gateway.hosts
unfolding validate check_gateway
validate-IsUsable c h enabled =
    let accepted =
      only_if-none c.gateway.enabled _ (checks-none (validate_checks c) h 11) enabled in
    check_hosts-IsUsable 0 c.gateway.hosts (checks-none (gateway_checks c.gateway) accepted 4)

byte_length-trim_left : (s : String) → byte_length (trim_left s) ≤ byte_length s
unfolding trim_left byte_length
byte_length-trim_left String.[] = ground arith
byte_length-trim_left (String.◌∷◌ c s) = ground (arith, byte_length-trim_left s)

byte_length-trim_right : (s : String) → byte_length (trim_right s) ≤ byte_length s
unfolding trim_right byte_length
byte_length-trim_right String.[] = ground arith
byte_length-trim_right (String.◌∷◌ c s) =
    elim (Bool-cases (is_empty (trim_right s) && is_white (code c))) [
      | inl e ↦ rw e (ground arith)
      | inr e ↦ rw e (omega (arith, byte_length-trim_right s))
    ]

byte_length-trim_space : (s : String) → byte_length (trim_space s) ≤ byte_length s
unfolding trim_space
byte_length-trim_space s =
    omega (arith, byte_length-trim_right (trim_left s), byte_length-trim_left s)

-- When a configuration is accepted whose authentication is enabled, its token has at least 32 bytes.
pub validate-byte_length :
    (c : Config) → validate c ≡ none → c.auth.enabled ≡ true → 32 ≤ byte_length c.auth.bearer_token
unfolding validate check_auth
validate-byte_length c h enabled =
    let accepted = only_if-none c.auth.enabled _ (checks-none (validate_checks c) h 4) enabled in
    let long = checks-none (auth_checks c.auth) accepted 1 in
    ground (arith, long, byte_length-trim_space c.auth.bearer_token)
