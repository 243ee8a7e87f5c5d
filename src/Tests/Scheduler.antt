-- ===== src/Tests/Scheduler.antt =====
-- Runs of the pipeline, with inputs that gather fixed metrics, aggregators that count, and outputs
-- that keep what they were written and then report an error.
use nodeagentx.Prelude.{
  ℕ, suc, String, true, false, arith, none, some, List, [], ◌∷◌, ◌++◌, map, ◌≡◌, refl,
}
use nodeagentx.Prelude.Maps.{lookup}
use nodeagentx.Collector.Metric.{Metric, gauge}
use nodeagentx.Collector.Buffer.Batches.{Addition}
use nodeagentx.Collector.Registry.{
  Plugins, Registry, built, init_failed, get_input, get_processor, get_aggregator, get_output,
}
use nodeagentx.Collector.Scheduler.{
  ScheduledInput, Scheduler, is_closed, new_scheduler, start, gather_once, ticks, begin_if,
  begin_collection, takes_mutex, workers_for, input_workers,
}
use nodeagentx.Collector.Scheduler.Rebuild.{
  ReloadConfig, unknown_type, and_then, init_outcome, factory_outcome, build_all, build_pipeline,
  settle_reload, reload, call_reload,
}
use nodeagentx.Collector.Scheduler.Gather.{add_each, written, batch_of, gather_once-fan_out}
use nodeagentx.Collector.Scheduler.Events.{
  Event, begins, gathers, pushes_all, stops, closes, reloads, goes_on, panics, hangs, and_run,
  or_hangs, run_input, happen, scheduler_run,
}
use nodeagentx.Collector.Scheduler.Runs.{scheduler_run-start}
use nodeagentx.Collector.Scheduler.Panics.{scheduler_run-reloads}

abbrev pub simple : Plugins ℕ
simple = record {
  Input = List (Addition ℕ);
  Processor = Unit;
  Aggregator = ℕ;
  Output = List (List (Metric ℕ));
  gather = λ i. (i, i, none);
  process = λ p metrics. (p, metrics);
  add = λ a m. suc a;
  push = λ a. [];
  reset = λ a. 0;
  write = λ o metrics. (metrics ∷ o, some "down");
}

abbrev cpu : Addition ℕ
cpu = ("cpu", [], [], gauge, 5)

abbrev pub registry : Registry simple.Input simple.Processor simple.Aggregator simple.Output
registry = record {
  inputs = ("cpu", λ c. built (cpu ∷ [])) ∷ ("bad", λ c. init_failed "no device") ∷ [];
  processors = [];
  aggregators = [];
  outputs = [];
}

abbrev cpu_input : ScheduledInput simple.Input
cpu_input = record { input = cpu ∷ []; interval = 7; tags = ("host", "a") ∷ [] }

abbrev pub running : Scheduler simple
running = start simple (new_scheduler simple (cpu_input ∷ []) [] (0 ∷ 10 ∷ []) ([] ∷ [] ∷ []))

gather_once-fan_out_example :
    let batch = batch_of simple running (("host", "a") ∷ []) (cpu ∷ []) in
    (s' : Scheduler simple) × (gather_once simple 0 9 false running ≡ some s')
    × (s'.aggregators ≡ map (add_each simple batch) running.aggregators)
    × (s'.outputs ≡ map (written simple batch) running.outputs)
    × (s'.sent ≡ running.sent ++ batch ∷ [])
unfolding new_scheduler start workers_for input_workers
gather_once-fan_out_example =
    gather_once-fan_out simple 0 9 false running cpu_input cpu [] (cpu ∷ []) refl refl refl

abbrev afternoon : List Event
afternoon =
    begins 0
    ∷ stops
    ∷ gathers 0 1 true
    ∷ gathers 0 1 false
    ∷ stops
    ∷ gathers 0 2 false
    ∷ closes
    ∷ pushes_all
    ∷ stops
    ∷ []

scheduler_run-start_example :
    (s : Scheduler simple) × (scheduler_run simple registry afternoon running ≡ goes_on s)
    × (is_closed s.closer ≡ true → s.workers ≡ [])
scheduler_run-start_example =
    scheduler_run-start simple registry afternoon (cpu_input ∷ []) [] (0 ∷ 10 ∷ []) ([] ∷ [] ∷ [])
      (omega arith, tt) (tt, (tt, (tt, (tt, (tt, (tt, (tt, (tt, (tt, tt)))))))))

abbrev pub inputs_of : String → ReloadConfig
inputs_of name = record {
  inputs = record { part_type = name; config = [] } ∷ [];
  processors = [];
  aggregators = [];
  outputs = [];
}

-- A reload that falls into a collection never returns.
begun_hangs :
    scheduler_run simple registry (begins 0 ∷ reloads (inputs_of "cpu") ∷ []) running ≡ hangs
unfolding scheduler_run and_run happen run_input ticks begin_collection begin_if takes_mutex
    call_reload or_hangs new_scheduler start workers_for input_workers
begun_hangs = refl

pub gpu_unknown :
    (reload simple registry (inputs_of "gpu") running).1 ≡ some (unknown_type "input" "gpu")
unfolding reload settle_reload build_pipeline build_all and_then factory_outcome init_outcome
    get_input lookup
gpu_unknown = refl

scheduler_run-reloads_example :
    scheduler_run simple registry
      (reloads (inputs_of "cpu") ∷ closes ∷ gathers 0 3 false ∷ [])
      running
    ≡ panics
unfolding new_scheduler start workers_for input_workers build_pipeline build_all and_then
    factory_outcome init_outcome get_input get_processor get_aggregator get_output lookup
scheduler_run-reloads_example =
    scheduler_run-reloads simple registry (inputs_of "cpu") 3 running
      (record { inputs = (cpu ∷ []) ∷ []; processors = []; aggregators = []; outputs = [] })
      (cpu ∷ []) [] cpu [] (cpu ∷ []) refl refl refl refl refl refl
