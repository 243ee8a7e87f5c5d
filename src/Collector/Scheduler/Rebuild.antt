-- ===== src/Collector/Scheduler/Rebuild.antt =====
-- Scheduler.Reload of internal/collector/scheduler.go.
use nodeagentx.Prelude.{ℕ, String, Option, none, some, List, [], ◌∷◌, if◌then◌else◌}
use nodeagentx.Prelude.Maps.{Map}
use nodeagentx.Collector.Registry.{
  Plugins, Registry, Factory, Built, built, init_failed, get_input, get_processor, get_aggregator,
  get_output,
}
use nodeagentx.Collector.Scheduler.{
  Scheduler, ScheduledInput, workers_for, push_each, cancel_and_wait, nobody_collects,
}

-- collector.PluginConfig, and the plugins of a pipeline by kind.
pub record PipelinePart : Type 0 where
  pub part_type : String
  pub config : Map ℕ

pub record ReloadConfig : Type 0 where
  pub inputs : List PipelinePart
  pub processors : List PipelinePart
  pub aggregators : List PipelinePart
  pub outputs : List PipelinePart

pub data ReloadError : Type 0 where
  unknown_type : String → String → ReloadError
  init_error : String → String → String → ReloadError

pub data Outcome (A : Type 0) : Type 0 where
  done : A → Outcome A
  failed : ReloadError → Outcome A

-- The first failure is the result.
unfoldable pub and_then : {A B : Type 0} → Outcome A → (A → Outcome B) → Outcome B
and_then (done a) next = next a
and_then (failed e) next = failed e

module _ {A : Type 0} where
  unfoldable pub init_outcome : String → PipelinePart → Built A → Outcome A
  init_outcome kind p (built a) = done a
  init_outcome kind p (init_failed e) = failed (init_error kind p.part_type e)

  unfoldable pub factory_outcome : String → PipelinePart → Option (Factory A) → Outcome A
  unfolding init_outcome
  factory_outcome kind p none = failed (unknown_type kind p.part_type)
  factory_outcome kind p (some factory) = init_outcome kind p (factory p.config)

  -- The loop over the parts of a kind: a factory is looked up, and what it makes is initialised.
  unfoldable pub build_all :
      String → (String → Option (Factory A)) → List PipelinePart → Outcome (List A)
  build_all kind get [] = done []
  build_all kind get (p ∷ ps) =
      and_then (factory_outcome kind p (get p.part_type))
        (λ a. and_then (build_all kind get ps) (λ rest. done (a ∷ rest)))

-- The plugins of a new pipeline.
pub record Pipeline {F : Type 0} (P : Plugins F) : Type 0 where
  pub inputs : List P.Input
  pub processors : List P.Processor
  pub aggregators : List P.Aggregator
  pub outputs : List P.Output

module _ {F : Type 0} (P : Plugins F) (r : Registry P.Input P.Processor P.Aggregator P.Output) where
  -- The four loops of Reload, in their order.
  unfoldable pub build_pipeline : ReloadConfig → Outcome (Pipeline P)
  build_pipeline cfg = and_then (build_all "input" (λ n. get_input n r) cfg.inputs) (λ inputs.
      and_then (build_all "processor" (λ n. get_processor n r) cfg.processors) (λ processors.
        and_then (build_all "aggregator" (λ n. get_aggregator n r) cfg.aggregators) (λ aggregators.
          and_then (build_all "output" (λ n. get_output n r) cfg.outputs) (λ outputs. done (record {
            inputs = inputs;
            processors = processors;
            aggregators = aggregators;
            outputs = outputs;
          })))))

  -- The new inputs have no tags, and the interval that the scheduler has.
  abbrev pub schedule_all : ℕ → List P.Input → List (ScheduledInput P.Input)
  schedule_all interval [] = []
  schedule_all interval (input ∷ rest) =
      record { input = input; interval = interval; tags = [] } ∷ schedule_all interval rest

  -- Reload up to the loops: the goroutines are stopped, and what the aggregators hold is discarded.
  unfoldable pub tear_down : Scheduler P → Scheduler P
  unfolding cancel_and_wait push_each
  tear_down s =
      let s' = cancel_and_wait P s in record s' { aggregators = (push_each P s'.aggregators).1 }

  -- Reload after them.
  unfoldable pub replace_pipeline : Pipeline P → Scheduler P → Scheduler P
  replace_pipeline new s =
      let inputs = schedule_all s.interval new.inputs in
      record s {
        inputs = inputs;
        processors = new.processors;
        aggregators = new.aggregators;
        outputs = new.outputs;
        workers = if s.running then workers_for inputs new.aggregators else s.workers;
      }

  -- Reload after the goroutines were stopped: a failure leaves it there.
  unfoldable pub settle_reload :
      Outcome (Pipeline P) → Scheduler P → Scheduler P × Option ReloadError
  settle_reload (failed e) s = (s, some e)
  settle_reload (done new) s = (replace_pipeline new s, none)

  -- Reload when it returns: no collection is before the mutex, which Reload holds.
  unfoldable pub reload : ReloadConfig → Scheduler P → Scheduler P × Option ReloadError
  reload cfg s = settle_reload (build_pipeline cfg) (tear_down s)

  -- Reload waits for the goroutines with the mutex held. When a collection has yet to take it, Reload
  -- never returns: that is `none`.
  unfoldable pub call_reload :
      ReloadConfig → Scheduler P → Option (Scheduler P × Option ReloadError)
  unfolding reload
  call_reload cfg s = if nobody_collects s.collecting then some (reload cfg s) else none
