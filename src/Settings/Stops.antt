-- ===== src/Settings/Stops.antt =====
-- The reload of the pipeline as a part of an update: the scheduler of internal/collector behind its
-- reloader. `describe` is the text of an error of Scheduler.Reload.
use nodeagentx.Prelude.{◌≤◌, String, false, not, Option, none, some, [], ◌∷◌, ◌≡◌, ap, ◌∙◌}
use nodeagentx.Collector.Registry.{Plugins, Registry}
use nodeagentx.Collector.Scheduler.{Scheduler, health_status}
use nodeagentx.Collector.Scheduler.Rebuild.{ReloadConfig, ReloadError, reload}
use nodeagentx.Collector.Scheduler.Reloads.{reload-failed}
use nodeagentx.Settings.Root.{Config}
use nodeagentx.Settings.Validate.{validate}
use nodeagentx.Settings.Diff.{DeepEqual}
use nodeagentx.Settings.Changes.{change_set, non_reloadable}
use nodeagentx.Settings.Reload.{
  Yaml, reloader_failed, ConfigReloader, roll_back, apply_reloaders, settle, apply,
  max_config_yaml_size,
}
use nodeagentx.Settings.Reloaders.{
  World, to_reload_config, collector_reloader, auth_reloader, prometheus_reloader,
  reporter_reloader, reloaders,
}
use nodeagentx.Settings.Outcomes.{apply-runs, turn_failed}

module _ {F : Type 0} (P : Plugins F) (r : Registry P.Input P.Processor P.Aggregator P.Output)
    (describe : ReloadError → String) where
  abbrev pub described : Option ReloadError → Option String
  described none = none
  described (some e) = some (describe e)

  -- Scheduler.Reload as the collector's reloader calls it, where it returns: no collection has yet to
  -- take the mutex.
  unfoldable pub reload_pipeline : ReloadConfig → Scheduler P → Scheduler P × Option String
  reload_pipeline cfg s = let (s', e) = reload P r cfg s in (s', described e)

  apply_reloaders-fails :
      (D : DeepEqual) (old new : Config) (w : World (Scheduler P)) (e : ReloadError)
      → D.collector_equal old.collector new.collector ≡ false
      → (reload P r (to_reload_config new.collector) w.pipeline).1 ≡ some e
      → apply_reloaders (change_set D old new) old new [] (reloaders reload_pipeline) w ≡ (
        record {
          pipeline = (reload P r (to_reload_config new.collector) w.pipeline).0;
          auth = w.auth;
          prometheus = w.prometheus;
        },
        some (reloader_failed (describe e)),
      )
  unfolding reloaders collector_reloader reload_pipeline change_set roll_back
  apply_reloaders-fails D old new w e changed bad =
      turn_failed (change_set D old new) old new []
        (auth_reloader ∷ prometheus_reloader ∷ reporter_reloader ∷ [])
        (collector_reloader reload_pipeline) w (describe e) (ap not changed) (ap described bad)

  -- When an update is accepted and needs no restart, but the reload of its changed pipeline fails:
  -- Apply returns that error and keeps the configuration before, yet no goroutine of the pipeline
  -- runs any more, while its health is reported as before.
  pub apply-stops :
      (Y : Yaml) (D : DeepEqual) (yaml : Y.Text) (c : ConfigReloader (World (Scheduler P)))
      (new : Config) (e : ReloadError)
      → Y.size yaml ≤ max_config_yaml_size
      → Y.parse yaml ≡ some new
      → validate new ≡ none
      → non_reloadable D c.current new ≡ []
      → D.collector_equal c.current.collector new.collector ≡ false
      → (reload P r (to_reload_config new.collector) c.world.pipeline).1 ≡ some e
      → let out = apply Y D (reloaders reload_pipeline) yaml c in
        (out.1 ≡ some (reloader_failed (describe e)))
        × (out.0.current ≡ c.current)
        × (out.0.world.pipeline.workers ≡ [])
        × ((health_status P out.0.world.pipeline).0 ≡ (health_status P c.world.pipeline).0)
  apply-stops Y D yaml c new e small read valid same changed bad =
      let runs = apply-runs Y D (reloaders reload_pipeline) yaml c new small read valid same in
      let out =
        runs
        ∙ ap (settle c.current new) (apply_reloaders-fails D c.current new c.world e changed bad) in
      let (inputs, workers, health) =
        reload-failed P r (to_reload_config new.collector) c.world.pipeline e bad in
      (
        ap (λ o. o.1) out,
        ap (λ o. o.0.current) out,
        ap (λ o. o.0.world.pipeline.workers) out ∙ workers,
        ap (λ o. (health_status P o.0.world.pipeline).0) out ∙ health,
      )
