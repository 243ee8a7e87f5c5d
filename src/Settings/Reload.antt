-- ===== src/Settings/Reload.antt =====
-- ConfigReloader of internal/config/reload.go: an update is parsed, compared, and applied by the
-- reloaders in turn, the applied ones being rolled back when one fails. The parser (viper) and the
-- text of an update are parameters; W is the state that the reloaders act on.
use nodeagentx.Prelude.{ℕ, String, Bool, Option, none, some, List, [], ◌∷◌, map, ltb, if◌then◌else◌}
use nodeagentx.Settings.Root.{Config}
use nodeagentx.Settings.Checks.{ConfigError}
use nodeagentx.Settings.Diff.{DeepEqual, ChangeSet, Field}
use nodeagentx.Settings.Changes.{Difference, invalid_config, changes, diff}

-- The interface. A method's error is its text.
pub record Reloader (W : Type 0) : Type 0 where
  pub can_reload : ChangeSet → Bool
  pub apply_config : Config → W → W × Option String
  pub rollback : Config → W → W × Option String

-- viper: the size of a text in bytes, and the configuration it holds.
pub record Yaml : Type 1 where
  pub Text : Type 0
  pub size : Text → ℕ
  pub parse : Text → Option Config

pub data ApplyError : Type 0 where
  too_large : ℕ → ApplyError
  unreadable : ApplyError
  refused : ConfigError → ApplyError
  restart_required : List Field → ApplyError
  reloader_failed : String → ApplyError

-- 1 << 20
abbrev pub max_config_yaml_size : ℕ
max_config_yaml_size = 1048576

pub record ConfigReloader (W : Type 0) : Type 0 where
  pub current : Config
  pub world : W

module _ {W : Type 0} where
  -- The applied reloaders, the last one first. The code logs an error and goes on.
  unfoldable pub roll_back : Config → List (Reloader W) → W → W
  roll_back old [] w = w
  roll_back old (r ∷ applied) w = roll_back old applied (r.rollback old w).0

  -- The loop over the reloaders, with those that were applied.
  unfoldable pub apply_reloaders :
      ChangeSet
      → Config
      → Config
      → List (Reloader W)
      → List (Reloader W)
      → W
      → W × Option ApplyError
  unfolding roll_back
  apply_reloaders cs old new applied [] w = (w, none)
  apply_reloaders cs old new applied (r ∷ rs) w =
      let (next, failure) = r.apply_config new w in
      let skipped = apply_reloaders cs old new applied rs w in
      let later = apply_reloaders cs old new (r ∷ applied) rs next in
      if r.can_reload cs
      then elim failure [
        | none ↦ later
        | some e ↦ (roll_back old applied next, some (reloader_failed e))
      ]
      else skipped

  -- Only when no reloader failed is the new configuration the current one.
  abbrev pub settle : Config → Config → W × Option ApplyError → ConfigReloader W × Option ApplyError
  settle old new (world, none) = (record { current = new; world = world }, none)
  settle old new (world, some e) = (record { current = old; world = world }, some e)

  -- What Apply does with the result of Diff.
  unfoldable pub apply_difference :
      List (Reloader W)
      → Config
      → ConfigReloader W
      → Difference
      → ConfigReloader W × Option ApplyError
  unfolding apply_reloaders
  apply_difference rs new r (invalid_config e) = (r, some (refused e))
  apply_difference rs new r (changes cs (c ∷ more)) =
      (r, some (restart_required (map (λ n. n.field) (c ∷ more))))
  apply_difference rs new r (changes cs []) =
      settle r.current new (apply_reloaders cs r.current new [] rs r.world)

  -- What it does with a parsed configuration.
  unfoldable pub apply_parsed :
      DeepEqual
      → List (Reloader W)
      → Config
      → ConfigReloader W
      → ConfigReloader W × Option ApplyError
  unfolding apply_difference
  apply_parsed D rs new r = apply_difference rs new r (diff D r.current new)

  unfoldable pub apply :
      (Y : Yaml)
      → DeepEqual
      → List (Reloader W)
      → Y.Text
      → ConfigReloader W
      → ConfigReloader W × Option ApplyError
  unfolding apply_parsed
  apply Y D rs yaml r =
      if ltb max_config_yaml_size (Y.size yaml)
      then (r, some (too_large (Y.size yaml)))
      else (elim (Y.parse yaml) [
        | none ↦ (r, some unreadable)
        | some new ↦ apply_parsed D rs new r
      ])
