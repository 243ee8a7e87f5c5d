-- ===== src/Settings/Outcomes.antt =====
-- The outcomes of an update, and of a turn of the loop over the reloaders.
use nodeagentx.Prelude.{
  String, true, false, none, some, List, [], ◌∷◌, map, ◌≡◌, refl, ◌⊎◌, inl, inr, Bool-cases,
  Option-cases, ltb, ◌≤◌, arith,
}
use nodeagentx.Settings.Root.{Config}
use nodeagentx.Settings.Checks.{ConfigError}
use nodeagentx.Settings.Validate.{validate}
use nodeagentx.Settings.Diff.{DeepEqual, ChangeSet}
use nodeagentx.Settings.Changes.{invalid_config, changes, diff, change_set, non_reloadable}
use nodeagentx.Settings.Reload.{
  Reloader, Yaml, ApplyError, reloader_failed, refused, restart_required, settle, ConfigReloader,
  roll_back, apply_reloaders, apply_difference, apply_parsed, apply, max_config_yaml_size,
  too_large, unreadable,
}

pub loop_ends :
    {W : Type 0} (cs : ChangeSet) (old new : Config) (applied : List (Reloader W)) (w : W)
    → apply_reloaders cs old new applied [] w ≡ (w, none)
unfolding apply_reloaders
loop_ends cs old new applied w = refl

-- The three outcomes of a turn of the loop.
module _ {W : Type 0} (cs : ChangeSet) (old new : Config) (applied rs : List (Reloader W)) where
  pub turn_skipped :
      (r : Reloader W) (w : W)
      → r.can_reload cs ≡ false
      → apply_reloaders cs old new applied (r ∷ rs) w ≡ apply_reloaders cs old new applied rs w
  unfolding apply_reloaders
  turn_skipped r w h = rw h

  pub turn_applied :
      (r : Reloader W) (w : W)
      → r.can_reload cs ≡ true
      → (r.apply_config new w).1 ≡ none
      → apply_reloaders cs old new applied (r ∷ rs) w
        ≡ apply_reloaders cs old new (r ∷ applied) rs (r.apply_config new w).0
  unfolding apply_reloaders
  turn_applied r w h ok = rw (h, ok)

  pub turn_failed :
      (r : Reloader W) (w : W) (e : String)
      → r.can_reload cs ≡ true
      → (r.apply_config new w).1 ≡ some e
      → apply_reloaders cs old new applied (r ∷ rs) w
        ≡ (roll_back old applied (r.apply_config new w).0, some (reloader_failed e))
  unfolding apply_reloaders
  turn_failed r w e h failed = rw (h, failed)

List-cases {ℓ} :
    {A : Type ℓ} (xs : List A) → (xs ≡ []) ⊎ ((x : A) × (rest : List A) × (xs ≡ x ∷ rest))
List-cases [] = inl refl
List-cases (x ∷ xs) = inr (x, xs, refl)

diff-cases :
    (D : DeepEqual) (old new : Config)
    → ((validate new ≡ none)
        × (diff D old new ≡ changes (change_set D old new) (non_reloadable D old new)))
      ⊎ ((e : ConfigError) × (diff D old new ≡ invalid_config e))
unfolding diff
diff-cases D old new = elim (Option-cases (validate new)) [
  | inr (e, invalid) ↦ inr (e, rw (invalid, diff) refl)
  | inl valid ↦ inl (valid, rw (valid, diff) refl)
]

-- A parsed configuration is refused, or it is accepted and the reloaders are run.
pub apply_parsed-cases {ℓ} :
    {Result : Type ℓ} {W : Type 0} (D : DeepEqual) (rs : List (Reloader W)) (new : Config)
    (r : ConfigReloader W)
    → ((x : ApplyError) → apply_parsed D rs new r ≡ (r, some x) → Result)
    → (validate new ≡ none
        → non_reloadable D r.current new ≡ []
        → apply_parsed D rs new r
          ≡ settle r.current new
              (apply_reloaders (change_set D r.current new) r.current new [] rs r.world)
        → Result)
    → Result
unfolding apply_parsed apply_difference
apply_parsed-cases D rs new r refuses runs = elim (diff-cases D r.current new) [
  | inr (e, invalid) ↦ refuses (refused e) (rw invalid refl)
  | inl (valid, found) ↦ elim (List-cases (non_reloadable D r.current new)) [
    | inl same ↦ runs valid same (rw (found, same) refl)
    | inr (c, more, changed) ↦
        refuses (restart_required (map (λ n. n.field) (c ∷ more))) (rw (found, changed) refl)
  ]
]

-- An update is refused, or it holds an accepted configuration and the reloaders are run.
pub apply-cases {ℓ} :
    {Result : Type ℓ} {W : Type 0} (Y : Yaml) (D : DeepEqual) (rs : List (Reloader W))
    (yaml : Y.Text) (r : ConfigReloader W)
    → ((x : ApplyError) → apply Y D rs yaml r ≡ (r, some x) → Result)
    → ((new : Config)
        → Y.size yaml ≤ max_config_yaml_size
        → Y.parse yaml ≡ some new
        → validate new ≡ none
        → non_reloadable D r.current new ≡ []
        → apply Y D rs yaml r
          ≡ settle r.current new
              (apply_reloaders (change_set D r.current new) r.current new [] rs r.world)
        → Result)
    → Result
unfolding apply
apply-cases Y D rs yaml r refuses runs =
    elim (Bool-cases (ltb max_config_yaml_size (Y.size yaml))) [
      | inl large ↦ refuses (too_large (Y.size yaml)) (rw large refl)
      | inr small ↦ elim (Option-cases (Y.parse yaml)) [
        | inl unread ↦ refuses unreadable (rw (small, unread) refl)
        | inr (new, read) ↦
            apply_parsed-cases D rs new r (λ x e. refuses x (rw (small, read) e))
              (λ valid same e.
                runs new (ground (arith, small)) read valid same (rw (small, read) e))
      ]
    ]

diff-valid :
    (D : DeepEqual) (old new : Config)
    → validate new ≡ none
    → diff D old new ≡ changes (change_set D old new) (non_reloadable D old new)
unfolding diff
diff-valid D old new valid = rw (valid, diff) refl

-- An update of the right size that is parsed, accepted and needs no restart runs the reloaders.
pub apply-runs :
    {W : Type 0} (Y : Yaml) (D : DeepEqual) (rs : List (Reloader W)) (yaml : Y.Text)
    (r : ConfigReloader W) (new : Config)
    → Y.size yaml ≤ max_config_yaml_size
    → Y.parse yaml ≡ some new
    → validate new ≡ none
    → non_reloadable D r.current new ≡ []
    → apply Y D rs yaml r
      ≡ settle r.current new
          (apply_reloaders (change_set D r.current new) r.current new [] rs r.world)
unfolding apply apply_parsed apply_difference
apply-runs Y D rs yaml r new small read valid same =
    let fits : ltb max_config_yaml_size (Y.size yaml) ≡ false = ground (arith, small) in
    rw (fits, read, diff-valid D r.current new valid, same) refl
