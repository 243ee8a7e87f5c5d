-- ===== src/Settings/Updates.antt =====
-- A run of updates: the server follows the configuration.
use nodeagentx.Prelude.{
  String, true, Option, none, some, List, [], ◌∷◌, ◌≡◌, refl, sym, subst, ◌∙◌, ap, ◌⊎◌, inl, inr,
}
use nodeagentx.Settings.Root.{Config}
use nodeagentx.Settings.Validate.{validate}
use nodeagentx.Settings.Diff.{DeepEqual, IsSound}
use nodeagentx.Settings.Changes.{change_set}
use nodeagentx.Settings.Fixed.{IsKept, trans-IsKept, non_reloadable-IsKept}
use nodeagentx.Settings.Reload.{
  Reloader, Yaml, ApplyError, ConfigReloader, apply_reloaders, apply, settle,
}
use nodeagentx.Settings.Tracking.{apply_reloaders-Holds, apply_reloaders-old, apply_reloaders-new}
use nodeagentx.Settings.Reloaders.{World, auth_of, prometheus_of, reloaders}
use nodeagentx.Collector.Scheduler.Rebuild.{ReloadConfig}
use nodeagentx.Settings.Outcomes.{apply-cases}
use nodeagentx.Settings.Undone.{pipeline_left, apply_reloaders-pipeline_left}
use nodeagentx.Settings.Keepers.{
  auth-IsPart, auth-HasKeeper, prometheus-HasKeeper, prometheus-IsPart, enabled-IsStable,
}

module _ {P : Type 0} where
  -- The updates of a run, one after the other.
  unfoldable pub apply_all :
      (Y : Yaml)
      → DeepEqual
      → List (Reloader (World P))
      → List Y.Text
      → ConfigReloader (World P)
      → ConfigReloader (World P)
  apply_all Y D rs [] r = r
  apply_all Y D rs (yaml ∷ later) r = apply_all Y D rs later (apply Y D rs yaml r).0

  -- The state of an agent that was started with the configuration `first`.
  pub record IsUpdated (first : Config) (r : ConfigReloader (World P)) : Type 0 where
    pub accepted : validate r.current ≡ none
    pub kept : IsKept first r.current
    pub auth_follows : r.world.auth ≡ auth_of r.current
    pub prometheus_follows : r.world.prometheus ≡ prometheus_of r.current
    pub auth_stays : first.auth.enabled ≡ true → r.current.auth.enabled ≡ true

  module _ (D : DeepEqual) (sound : IsSound D) (reload : ReloadConfig → P → P × Option String)
      (first : Config) where
    -- What the run of the reloaders leaves, when none failed and when one did.
    run-auth :
        (new : Config) (r : ConfigReloader (World P))
        → IsUpdated first r
        → let out =
            apply_reloaders
              (change_set D r.current new)
              r.current
              new
              []
              (reloaders reload)
              r.world in
          (out.1 ≡ none → out.0.auth ≡ auth_of new)
          × ((e : ApplyError) → out.1 ≡ some e → out.0.auth ≡ auth_of r.current)
    run-auth new r u = (
      apply_reloaders-new (λ w. w.auth) auth_of (change_set D r.current new) r.current new []
          (reloaders reload) r.world (auth-IsPart D r.current new reload)
          (inr (u.auth_follows, auth-HasKeeper D r.current new reload)),
      apply_reloaders-old (λ w. w.auth) auth_of (change_set D r.current new) r.current new []
          (reloaders reload) r.world tt (auth-IsPart D r.current new reload) (inl u.auth_follows),
    )

    run-prometheus :
        (new : Config) (r : ConfigReloader (World P))
        → IsUpdated first r
        → let out =
            apply_reloaders
              (change_set D r.current new)
              r.current
              new
              []
              (reloaders reload)
              r.world in
          (out.1 ≡ none → out.0.prometheus ≡ prometheus_of new)
          × ((e : ApplyError) → out.1 ≡ some e → out.0.prometheus ≡ prometheus_of r.current)
    run-prometheus new r u = (
      apply_reloaders-new (λ w. w.prometheus) prometheus_of (change_set D r.current new) r.current
          new [] (reloaders reload) r.world (prometheus-IsPart D r.current new reload)
          (inr (u.prometheus_follows, prometheus-HasKeeper D r.current new reload)),
      apply_reloaders-old (λ w. w.prometheus) prometheus_of (change_set D r.current new) r.current
          new [] (reloaders reload) r.world tt (prometheus-IsPart D r.current new reload)
          (inl u.prometheus_follows),
    )

    run-enabled :
        (new : Config) (r : ConfigReloader (World P))
        → IsUpdated first r
        → first.auth.enabled ≡ true
        → let out =
            apply_reloaders
              (change_set D r.current new)
              r.current
              new
              []
              (reloaders reload)
              r.world in
          out.0.auth.enabled ≡ true
    run-enabled new r u on =
        let now = u.auth_stays on in
        apply_reloaders-Holds (λ w. w.auth.enabled ≡ true) r.current new
          (change_set D r.current new) [] (reloaders reload) r.world tt
          (enabled-IsStable D r.current new reload now) (ap (λ a. a.enabled) u.auth_follows ∙ now)

    settle-IsUpdated :
        (new : Config) (r : ConfigReloader (World P)) (out : World P × Option ApplyError)
        → IsUpdated first r
        → validate new ≡ none
        → IsKept first new
        → (out.1 ≡ none → out.0.auth ≡ auth_of new)
          × ((e : ApplyError) → out.1 ≡ some e → out.0.auth ≡ auth_of r.current)
        → (out.1 ≡ none → out.0.prometheus ≡ prometheus_of new)
          × ((e : ApplyError) → out.1 ≡ some e → out.0.prometheus ≡ prometheus_of r.current)
        → (first.auth.enabled ≡ true → out.0.auth.enabled ≡ true)
        → IsUpdated first (settle r.current new out).0
    settle-IsUpdated new r (w, none) u valid kept auth prometheus on = record {
      accepted = valid;
      kept = kept;
      auth_follows = auth.0 refl;
      prometheus_follows = prometheus.0 refl;
      auth_stays = λ h. sym (ap (λ a. a.enabled) (auth.0 refl)) ∙ on h;
    }
    settle-IsUpdated new r (w, some e) u valid kept auth prometheus on = record {
      accepted = u.accepted;
      kept = u.kept;
      auth_follows = auth.1 e refl;
      prometheus_follows = prometheus.1 e refl;
      auth_stays = u.auth_stays;
    }

    apply-IsUpdated :
        (Y : Yaml) (yaml : Y.Text) (r : ConfigReloader (World P))
        → IsUpdated first r
        → IsUpdated first (apply Y D (reloaders reload) yaml r).0
    apply-IsUpdated Y yaml r u =
        apply-cases Y D (reloaders reload) yaml r
          (λ x same. subst (λ out. IsUpdated first out.0) (sym same) u)
          (λ new small read valid unchanged ran.
            subst (λ out. IsUpdated first out.0) (sym ran)
              (settle-IsUpdated new r _ u valid
                (trans-IsKept first r.current new u.kept
                  (non_reloadable-IsKept D sound r.current new unchanged))
                (run-auth new r u) (run-prometheus new r u) (run-enabled new r u)))

    -- Where reflect.DeepEqual is sound: through every run of updates, whatever the reload of the
    -- pipeline answers, the current configuration stays accepted and keeps what only a restart may
    -- change, the server has its authentication and Prometheus options, and authentication that was
    -- enabled at the start stays enabled.
    pub apply_all-IsUpdated :
        (Y : Yaml) (yamls : List Y.Text) (r : ConfigReloader (World P))
        → IsUpdated first r
        → IsUpdated first (apply_all Y D (reloaders reload) yamls r)
    unfolding apply_all
    apply_all-IsUpdated Y [] r u = u
    apply_all-IsUpdated Y (yaml ∷ later) r u =
        apply_all-IsUpdated Y later (apply Y D (reloaders reload) yaml r).0
          (apply-IsUpdated Y yaml r u)

    settle-failed :
        (new : Config) (r : ConfigReloader (World P)) (out : World P × Option ApplyError)
        → ((e : ApplyError) → out.1 ≡ some e → out.0.auth ≡ auth_of r.current)
        → ((e : ApplyError) → out.1 ≡ some e → out.0.prometheus ≡ prometheus_of r.current)
        → (e : ApplyError) → (settle r.current new out).1 ≡ some e
        → ((settle r.current new out).0.current ≡ r.current)
          × ((settle r.current new out).0.world.auth ≡ auth_of r.current)
          × ((settle r.current new out).0.world.prometheus ≡ prometheus_of r.current)
    settle-failed new r (w, none) auth prometheus e failed = cc failed
    settle-failed new r (w, some x) auth prometheus e failed =
        (refl, auth x refl, prometheus x refl)

    settle-world :
        (new : Config) (r : ConfigReloader (World P)) (out : World P × Option ApplyError)
        → ((settle r.current new out).0.world ≡ out.0) × ((settle r.current new out).1 ≡ out.1)
    settle-world new r (w, none) = (refl, refl)
    settle-world new r (w, some e) = (refl, refl)

    -- Where reflect.DeepEqual is sound and the server's options follow an accepted configuration: when
    -- Apply returns an error, the configuration is the one before, and so are the server's options. Either nothing has changed, or the update was parsed and a reloader failed: then the
    -- pipeline is the one before where the configurations agree on it; else it is what a failed reload
    -- of it left, or, when that reload had succeeded and another reloader failed, what the rollback's
    -- reload of the old configuration makes of it.
    pub apply-failed :
        (Y : Yaml) (yaml : Y.Text) (r : ConfigReloader (World P))
        → IsUpdated first r
        → (e : ApplyError) → (apply Y D (reloaders reload) yaml r).1 ≡ some e
        → ((apply Y D (reloaders reload) yaml r).0.current ≡ r.current)
          × ((apply Y D (reloaders reload) yaml r).0.world.auth ≡ r.world.auth)
          × ((apply Y D (reloaders reload) yaml r).0.world.prometheus ≡ r.world.prometheus)
          × ((apply Y D (reloaders reload) yaml r ≡ (r, some e))
              ⊎ ((new : Config) × (Y.parse yaml ≡ some new)
                  × ((apply Y D (reloaders reload) yaml r).0.world.pipeline
                      ≡ pipeline_left reload D r.current new r.world.pipeline)))
    apply-failed Y yaml r u e failed =
        apply-cases Y D (reloaders reload) yaml r
          (λ x same. rw same (refl, refl, refl, inl (ap (λ o. (r, o)) (rw same at failed))))
          (λ new small read valid unchanged ran.
            let run =
              apply_reloaders (change_set D r.current new) r.current new [] (reloaders reload)
                r.world in
            let (same, auth, prometheus) =
              settle-failed new r _ (run-auth new r u).1 (run-prometheus new r u).1 e
                (rw ran at failed) in
            let (world, error) = settle-world new r run in
            let left =
              apply_reloaders-pipeline_left reload D r.current new r.world e
                (sym error ∙ rw ran at failed) in
            rw ran (
              same,
              auth ∙ sym u.auth_follows,
              prometheus ∙ sym u.prometheus_follows,
              inr (new, read, ap (λ w. w.pipeline) world ∙ left),
            ))
