-- ===== src/Collector/Scheduler.antt =====
-- internal/collector/scheduler.go: the goroutines of the scheduler, its channel, and what they do.
-- A step of a goroutine is a function of the state; `none` is a panic. The consumer of the channel
-- keeps up, so that a send does not wait. An interval is in nanoseconds; 0 stands for those of 0 or
-- less.
pub mod Rebuild
pub mod Gather
pub mod Events
pub mod Runs
pub mod Reloads
pub mod Panics
use nodeagentx.Prelude.{
  ℕ, zero, suc, ◌*◌, String, Bool, true, false, not, ◌||◌, Option, none, some, List, [], ◌∷◌, ◌++◌,
  map, ◌==◌, length, set, get_elem?, any, ltb, if◌then◌else◌,
}
use nodeagentx.Prelude.Maps.{Map, insert}
use nodeagentx.Collector.Metric.{Metric, add_tag}
use nodeagentx.Collector.Buffer.{Accumulator, new_accumulator, accumulate, collect}
use nodeagentx.Collector.Buffer.Batches.{Addition, accumulate_all}
use nodeagentx.Collector.Registry.{Plugins}

-- The goroutines that Start and Reload make: one for each input, and one that pushes aggregates.
pub data Worker : Type 0 where
  runs_input : ℕ → Worker
  pushes : Worker

pub record ScheduledInput (I : Type 0) : Type 0 where
  pub input : I
  pub interval : ℕ
  pub tags : Map String

-- The channel, and the goroutine that closes it: `waiting` for the workers, `released` when they
-- have ended once, `finished` after it has closed the channel.
pub data Closer : Type 0 where
  absent waiting released finished : Closer

-- `collecting` are the inputs whose collection has metrics and has yet to take the mutex.
pub record Scheduler {F : Type 0} (P : Plugins F) : Type 0 where
  pub inputs : List (ScheduledInput P.Input)
  pub processors : List P.Processor
  pub aggregators : List P.Aggregator
  pub outputs : List P.Output
  pub running : Bool
  pub interval : ℕ
  pub last_collection : Option ℕ
  pub workers : List Worker
  pub closer : Closer
  pub sent : List (List (Metric F))
  pub collecting : List ℕ

-- defaultAccumulatorSize, and defaultSchedulerInterval in nanoseconds.
abbrev pub default_accumulator_size : ℕ
default_accumulator_size = 1000

abbrev pub default_scheduler_interval : ℕ
default_scheduler_interval = 10_000_000_000

unfoldable pub first_interval : {I : Type 0} → List (ScheduledInput I) → ℕ
first_interval [] = default_scheduler_interval
first_interval (si ∷ rest) = if ltb 0 si.interval then si.interval else default_scheduler_interval

-- The workers for some inputs, the i-th first.
unfoldable pub input_workers : {I : Type 0} → ℕ → List (ScheduledInput I) → List Worker
input_workers i [] = []
input_workers i (si ∷ rest) = runs_input i ∷ input_workers (suc i) rest

unfoldable pub workers_for : {I A : Type 0} → List (ScheduledInput I) → List A → List Worker
workers_for inputs [] = input_workers 0 inputs
workers_for inputs (a ∷ aggregators) = input_workers 0 inputs ++ pushes ∷ []

-- wg.Wait returns in the goroutine that closes the channel.
abbrev pub release : Closer → Closer
release waiting = released
release c = c

-- It does not wait when there are no workers.
abbrev pub closer_for : List Worker → Closer
closer_for [] = released
closer_for (w ∷ ws) = waiting

abbrev pub close_once : Closer → Closer
close_once released = finished
close_once c = c

abbrev pub is_closed : Closer → Bool
is_closed finished = true
is_closed _ = false

unfoldable pub without : ℕ → List ℕ → List ℕ
without i [] = []
without i (j ∷ js) = let rest = without i js in if i == j then rest else j ∷ rest

-- No collection has yet to take the mutex.
abbrev pub nobody_collects : List ℕ → Bool
nobody_collects [] = true
nobody_collects (i ∷ others) = false

module _ {F : Type 0} (P : Plugins F) where
  unfoldable pub new_scheduler :
      List (ScheduledInput P.Input)
      → List P.Processor
      → List P.Aggregator
      → List P.Output
      → Scheduler P
  new_scheduler inputs processors aggregators outputs = record {
    inputs = inputs;
    processors = processors;
    aggregators = aggregators;
    outputs = outputs;
    running = false;
    interval = first_interval inputs;
    last_collection = none;
    workers = [];
    closer = absent;
    sent = [];
    collecting = [];
  }

  -- Start of a scheduler that is new.
  unfoldable pub start : Scheduler P → Scheduler P
  start s = record s {
    running = true;
    workers = workers_for s.inputs s.aggregators;
    closer = closer_for (workers_for s.inputs s.aggregators);
    sent = [];
  }

  -- for k, v := range si.Tags { m.AddTag(k, v) }
  unfoldable pub add_tags : Map String → Metric F → Metric F
  add_tags [] m = m
  add_tags ((k, v) ∷ tags) m = add_tags tags (add_tag k v m)

  unfoldable pub apply_processors :
      List P.Processor → List (Metric F) → List P.Processor × List (Metric F)
  apply_processors [] metrics = ([], metrics)
  apply_processors (p ∷ ps) metrics =
      let (p', next) = P.process p metrics in
      let (ps', out) = apply_processors ps next in (p' ∷ ps', out)

  -- One metric to every aggregator, and every metric so.
  unfoldable pub feed_one : Metric F → List P.Aggregator → List P.Aggregator
  feed_one m [] = []
  feed_one m (a ∷ as_left) = P.add a m ∷ feed_one m as_left

  unfoldable pub feed_all : List (Metric F) → List P.Aggregator → List P.Aggregator
  feed_all [] aggregators = aggregators
  feed_all (m ∷ ms) aggregators = feed_all ms (feed_one m aggregators)

  -- An error of an output is logged, and the loop goes on.
  unfoldable pub write_all : List (Metric F) → List P.Output → List P.Output
  write_all metrics [] = []
  write_all metrics (o ∷ outputs) =
      let (o', failure) = P.write o metrics in o' ∷ write_all metrics outputs

  -- select { case ch <- metrics: case <-ctx.Done(): }, where `leaves` says that the second case is
  -- taken, which happens only when the context is done.
  unfoldable pub send_batch : Bool → List (Metric F) → Scheduler P → Option (Scheduler P)
  send_batch true metrics s = some s
  send_batch false metrics s =
      if is_closed s.closer then none else some (record s { sent = s.sent ++ metrics ∷ [] })

  -- gatherOnce after the metrics were collected.
  unfoldable pub pass_on :
      Map String → ℕ → Bool → List (Metric F) → Scheduler P → Option (Scheduler P)
  pass_on tags now leaves [] s = some s
  pass_on tags now leaves (m ∷ ms) s =
      let (processors, metrics) = apply_processors s.processors (map (add_tags tags) (m ∷ ms)) in
      send_batch leaves metrics (record s {
        processors = processors;
        aggregators = feed_all metrics s.aggregators;
        outputs = write_all metrics s.outputs;
        last_collection = some now;
      })

  -- gatherOnce after Gather: the metrics of a failed one are dropped.
  unfoldable pub after_gather :
      ℕ
      → ℕ
      → Bool
      → ScheduledInput P.Input
      → P.Input × List (Addition F) × Option String
      → Scheduler P
      → Option (Scheduler P)
  after_gather i now leaves si (input, additions, some e) s =
      some (record s { inputs = set s.inputs i (record si { input = input }) })
  after_gather i now leaves si (input, additions, none) s =
      let acc = accumulate_all additions (new_accumulator default_accumulator_size) in
      pass_on si.tags now leaves (collect acc).0
        (record s { inputs = set s.inputs i (record si { input = input }) })

  -- gatherOnce for the i-th input.
  unfoldable pub gather_once : ℕ → ℕ → Bool → Scheduler P → Option (Scheduler P)
  unfolding after_gather
  gather_once i now leaves s = elim (get_elem? s.inputs i) [
    | none ↦ some s
    | some si ↦ after_gather i now leaves si (P.gather si.input) s
  ]

  -- time.NewTicker(si.Interval) in the goroutine of the i-th input does not panic.
  unfoldable pub ticks : ℕ → Scheduler P → Bool
  ticks i s = elim (get_elem? s.inputs i) [ none ↦ true | some si ↦ ltb 0 si.interval ]

  -- Whether gatherOnce gets to the mutex: Gather did not fail, and there are metrics.
  unfoldable pub takes_mutex : P.Input × List (Addition F) × Option String → Bool
  takes_mutex (input, additions, some e) = false
  takes_mutex (input, [], none) = false
  takes_mutex (input, x ∷ xs, none) = true

  unfoldable pub begin_if : Bool → ℕ → Scheduler P → Scheduler P
  begin_if true i s = record s { collecting = i ∷ s.collecting }
  begin_if false i s = s

  -- A collection of the i-th input before the mutex.
  unfoldable pub begin_collection : ℕ → Scheduler P → Scheduler P
  unfolding takes_mutex begin_if
  begin_collection i s = elim (get_elem? s.inputs i) [
    | none ↦ s
    | some si ↦ begin_if (takes_mutex (P.gather si.input)) i s
  ]

  -- The collection is over.
  unfoldable pub end_collection : ℕ → Scheduler P → Scheduler P
  end_collection i s = record s { collecting = without i s.collecting }

  -- Push and Reset of each aggregator, with the additions they make.
  unfoldable pub push_each : List P.Aggregator → List (Addition F) × List P.Aggregator
  push_each [] = ([], [])
  push_each (a ∷ as_left) =
      let (additions, rest) = push_each as_left in (P.push a ++ additions, P.reset a ∷ rest)

  -- Nothing is written when there are no metrics.
  abbrev pub write_out : List (Metric F) → Scheduler P → Scheduler P
  write_out [] s = s
  write_out (m ∷ ms) s = record s { outputs = write_all (m ∷ ms) s.outputs }

  unfoldable pub push_aggregators : Scheduler P → Scheduler P
  push_aggregators s =
      let (additions, aggregators) = push_each s.aggregators in
      let acc = accumulate_all additions (new_accumulator default_accumulator_size) in
      write_out (collect acc).0 (record s { aggregators = aggregators })

  -- The workers end: the one that pushes does so once more.
  unfoldable pub end_workers : List Worker → Scheduler P → Scheduler P
  end_workers [] s = s
  end_workers (runs_input i ∷ ws) s = end_workers ws s
  end_workers (pushes ∷ ws) s = end_workers ws (push_aggregators s)

  -- s.cancel() and s.wg.Wait().
  unfoldable pub cancel_and_wait : Scheduler P → Scheduler P
  unfolding end_workers
  cancel_and_wait s =
      let s' = end_workers s.workers s in record s' { workers = []; closer = release s'.closer }

  unfoldable pub stop : Scheduler P → Scheduler P
  unfolding cancel_and_wait
  stop s = cancel_and_wait (record s { running = false })

  -- close(ch)
  unfoldable pub close_channel : Scheduler P → Scheduler P
  close_channel s = record s { closer = close_once s.closer }

  -- HealthStatus: the status, the number of inputs and the time of the last collection.
  unfoldable pub health_status : Scheduler P → String × ℕ × Option ℕ
  health_status s = (if s.running then "running" else "stopped", length s.inputs, s.last_collection)
