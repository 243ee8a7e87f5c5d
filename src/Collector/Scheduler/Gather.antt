-- ===== src/Collector/Scheduler/Gather.antt =====
-- What one collection does with the metrics: every aggregator and every output takes the same batch.
use nodeagentx.Prelude.{
  ℕ, String, Bool, true, false, none, some, if◌then◌else◌, List, [], ◌∷◌, ◌++◌, map, ◌≡◌, refl, ap,
  ◌∙◌, set, get_elem?, take,
}
use nodeagentx.Prelude.Maps.{Map}
use nodeagentx.Collector.Metric.{Metric}
use nodeagentx.Collector.Buffer.Batches.{Addition, made, collect-accumulate_all}
use nodeagentx.Collector.Registry.{Plugins}
use nodeagentx.Collector.Scheduler.{
  ScheduledInput, Scheduler, is_closed, default_accumulator_size, add_tags, apply_processors,
  feed_one, feed_all, write_all, send_batch, pass_on, after_gather, gather_once,
}

module _ {F : Type 0} (P : Plugins F) where
  -- One aggregator over a batch, and one output.
  abbrev pub add_each : List (Metric F) → P.Aggregator → P.Aggregator
  add_each [] a = a
  add_each (m ∷ ms) a = add_each ms (P.add a m)

  abbrev pub written : List (Metric F) → P.Output → P.Output
  written metrics o = (P.write o metrics).0

  feed_all-nil : (ms : List (Metric F)) → feed_all P ms [] ≡ []
  unfolding feed_all feed_one
  feed_all-nil [] = refl
  feed_all-nil (m ∷ ms) = feed_all-nil ms

  feed_all-cons :
      (ms : List (Metric F)) (a : P.Aggregator) (as_left : List P.Aggregator)
      → feed_all P ms (a ∷ as_left) ≡ add_each ms a ∷ feed_all P ms as_left
  unfolding feed_all feed_one
  feed_all-cons [] a as_left = refl
  feed_all-cons (m ∷ ms) a as_left = feed_all-cons ms (P.add a m) (feed_one P m as_left)

  -- The loops in the other order.
  feed_all-map :
      (ms : List (Metric F)) (aggregators : List P.Aggregator)
      → feed_all P ms aggregators ≡ map (add_each ms) aggregators
  feed_all-map ms [] = feed_all-nil ms
  feed_all-map ms (a ∷ as_left) =
      feed_all-cons ms a as_left ∙ ap (λ rest. add_each ms a ∷ rest) (feed_all-map ms as_left)

  write_all-map :
      (ms : List (Metric F)) (outputs : List P.Output)
      → write_all P ms outputs ≡ map (written ms) outputs
  unfolding write_all
  write_all-map ms [] = refl
  write_all-map ms (o ∷ outputs) = ap (λ rest. written ms o ∷ rest) (write_all-map ms outputs)

  -- The metrics of a collection, as they leave the processors.
  abbrev pub batch_of : Scheduler P → Map String → List (Addition F) → List (Metric F)
  batch_of s tags additions =
      (apply_processors P s.processors
        (map (add_tags P tags) (take default_accumulator_size (map made additions)))).1

  -- What the rest of gatherOnce leaves.
  passed : Map String → ℕ → Bool → List (Metric F) → Scheduler P → Scheduler P
  passed tags now leaves metrics s =
      let (processors, batch) = apply_processors P s.processors (map (add_tags P tags) metrics) in
      record s {
        processors = processors;
        aggregators = feed_all P batch s.aggregators;
        outputs = write_all P batch s.outputs;
        last_collection = some now;
        sent = if leaves then s.sent else s.sent ++ batch ∷ [];
      }

  pass_on-passed :
      (tags : Map String) (now : ℕ) (leaves : Bool) (m : Metric F) (ms : List (Metric F))
      (s : Scheduler P)
      → is_closed s.closer ≡ false
      → pass_on P tags now leaves (m ∷ ms) s ≡ some (passed tags now leaves (m ∷ ms) s)
  unfolding pass_on send_batch passed
  pass_on-passed tags now true m ms s h = refl
  pass_on-passed tags now false m ms s h = rw h refl

  pub gather_once-pass_on :
      (i now : ℕ) (leaves : Bool) (s : Scheduler P) (si : ScheduledInput P.Input)
      (additions : List (Addition F)) (input : P.Input)
      → get_elem? s.inputs i ≡ some si
      → P.gather si.input ≡ (input, additions, none)
      → gather_once P i now leaves s
        ≡ pass_on P si.tags now leaves
            (take default_accumulator_size (map made additions))
            (record s { inputs = set s.inputs i (record si { input = input }) })
  unfolding gather_once after_gather
  gather_once-pass_on i now leaves s si additions input at gathered =
      rw (at, gathered, gather_once)
        (ap
          (λ c.
            pass_on P si.tags now leaves c.0
              (record s { inputs = set s.inputs i (record si { input = input }) }))
          (collect-accumulate_all default_accumulator_size additions))

  -- When the i-th input gathers some metrics without an error and the channel is open, gatherOnce
  -- does not panic: every aggregator has then been given the same batch in its order, every output
  -- has been written it, whether others failed or not, and it was sent, unless the context is done
  -- and the select takes that. The batch is what the
  -- processors make of the first 1,000 metrics with the input's tags.
  pub gather_once-fan_out :
      (i now : ℕ) (leaves : Bool) (s : Scheduler P) (si : ScheduledInput P.Input) (x : Addition F)
      (xs : List (Addition F)) (input : P.Input)
      → get_elem? s.inputs i ≡ some si
      → P.gather si.input ≡ (input, x ∷ xs, none)
      → is_closed s.closer ≡ false
      → (s' : Scheduler P) × (gather_once P i now leaves s ≡ some s')
        × (s'.aggregators ≡ map (add_each (batch_of s si.tags (x ∷ xs))) s.aggregators)
        × (s'.outputs ≡ map (written (batch_of s si.tags (x ∷ xs))) s.outputs)
        × (s'.sent ≡ (if leaves then s.sent else s.sent ++ batch_of s si.tags (x ∷ xs) ∷ []))
  unfolding passed
  gather_once-fan_out i now leaves s si x xs input at gathered h =
      let s0 = record s { inputs = set s.inputs i (record si { input = input }) } in
      let batch = batch_of s si.tags (x ∷ xs) in
      let collected = take default_accumulator_size (map made (x ∷ xs)) in
      (
        passed si.tags now leaves collected s0,
        gather_once-pass_on i now leaves s si (x ∷ xs) input at gathered
            ∙ pass_on-passed si.tags now leaves (made x) (take 999 (map made xs)) s0 h,
        feed_all-map batch s.aggregators,
        write_all-map batch s.outputs,
        refl,
      )
