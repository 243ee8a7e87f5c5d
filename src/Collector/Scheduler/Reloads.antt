-- ===== src/Collector/Scheduler/Reloads.antt =====
-- What Scheduler.Reload leaves, when it succeeds and when it fails.
use nodeagentx.Prelude.{String, Option, some, List, [], ◌∷◌, All, ◌≡◌, refl, ap, ◌∙◌, if◌then◌else◌}
use nodeagentx.Collector.Metric.{Metric}
use nodeagentx.Collector.Registry.{
  Plugins, Registry, Factory, built, get_input, get_processor, get_aggregator, get_output,
}
use nodeagentx.Collector.Scheduler.{
  Worker, runs_input, pushes, Scheduler, release, write_out, push_aggregators, end_workers,
  cancel_and_wait, health_status,
}
use nodeagentx.Collector.Scheduler.Rebuild.{
  PipelinePart, ReloadConfig, ReloadError, Outcome, done, failed, settle_reload, Pipeline,
  build_pipeline, tear_down, reload,
}

module _ {A : Type 0} (kind : String) (get : String → Option (Factory A)) where
  -- The type is registered, and the plugin takes the settings.
  abbrev pub IsBuildable : PipelinePart → Type 0
  IsBuildable p = (f : Factory A) × (a : A) × (get p.part_type ≡ some f) × (f p.config ≡ built a)

module _ {F : Type 0} (P : Plugins F) (r : Registry P.Input P.Processor P.Aggregator P.Output) where
  -- Every part of a configuration can be built.
  abbrev pub IsComplete : ReloadConfig → Type 0
  IsComplete cfg =
      All (IsBuildable "input" (λ n. get_input n r)) cfg.inputs
      × All (IsBuildable "processor" (λ n. get_processor n r)) cfg.processors
      × All (IsBuildable "aggregator" (λ n. get_aggregator n r)) cfg.aggregators
      × All (IsBuildable "output" (λ n. get_output n r)) cfg.outputs

  -- What the end of the workers leaves alone.
  abbrev pub IsSame : Scheduler P → Scheduler P → Type 0
  IsSame s s' = (s'.inputs ≡ s.inputs) × (s'.running ≡ s.running) × (s'.closer ≡ s.closer)

  write_out-IsSame : (ms : List (Metric F)) (s : Scheduler P) → IsSame s (write_out P ms s)
  write_out-IsSame [] s = (refl, refl, refl)
  write_out-IsSame (m ∷ ms) s = (refl, refl, refl)

  push_aggregators-IsSame : (s : Scheduler P) → IsSame s (push_aggregators P s)
  unfolding push_aggregators
  push_aggregators-IsSame s = write_out-IsSame _ _

  pub end_workers-IsSame : (ws : List Worker) (s : Scheduler P) → IsSame s (end_workers P ws s)
  unfolding end_workers
  end_workers-IsSame [] s = (refl, refl, refl)
  end_workers-IsSame (runs_input i ∷ ws) s = end_workers-IsSame ws s
  end_workers-IsSame (pushes ∷ ws) s =
      let (a, b, c) = end_workers-IsSame ws (push_aggregators P s) in
      let (x, y, z) = push_aggregators-IsSame s in (a ∙ x, b ∙ y, c ∙ z)

  pub tear_down-IsSame :
      (s : Scheduler P)
      → ((tear_down P r s).inputs ≡ s.inputs)
        × ((tear_down P r s).running ≡ s.running)
        × ((tear_down P r s).closer ≡ release s.closer)
        × ((tear_down P r s).workers ≡ [])
  unfolding tear_down cancel_and_wait
  tear_down-IsSame s = let (a, b, c) = end_workers-IsSame s.workers s in (a, b, ap release c, refl)

  settle_reload-some :
      (o : Outcome (Pipeline P)) (s : Scheduler P) (e : ReloadError)
      → (settle_reload P r o s).1 ≡ some e
      → (settle_reload P r o s).0 ≡ s
  unfolding settle_reload
  settle_reload-some (failed x) s e h = refl
  settle_reload-some (done new) s e h = cc h

  -- When Reload fails, the scheduler keeps its inputs but no goroutine runs any more, and its health
  -- is reported as it was before, as running where it ran.
  pub reload-failed :
      (cfg : ReloadConfig) (s : Scheduler P) (e : ReloadError)
      → (reload P r cfg s).1 ≡ some e
      → ((reload P r cfg s).0.inputs ≡ s.inputs)
        × ((reload P r cfg s).0.workers ≡ [])
        × ((health_status P (reload P r cfg s).0).0 ≡ (health_status P s).0)
  unfolding reload health_status
  reload-failed cfg s e h =
      let same = settle_reload-some (build_pipeline P r cfg) (tear_down P r s) e h in
      let (inputs, running, closer, workers) = tear_down-IsSame s in
      (
        ap (λ t. t.inputs) same ∙ inputs,
        ap (λ t. t.workers) same ∙ workers,
        ap (λ b. if b then "running" else "stopped") (ap (λ t. t.running) same ∙ running),
      )
