-- ===== src/Collector/Buffer.antt =====
-- internal/collector/buffer.go and accumulator.go: bounded lists of metrics, under a mutex. `A` stands
-- for `*Metric`. Sizes are not negative, since `make` panics on a negative one.
pub mod Retained
pub mod Batches
use nodeagentx.Prelude.{
  ℕ, Option, none, some, List, [], ◌∷◌, ◌++◌, leb, if◌then◌else◌, ◌>>=◌, length, take, drop, min,
  String,
}
use nodeagentx.Prelude.Maps.{Map}
use nodeagentx.Collector.Metric.{Metric, MetricType, gauge, counter, Value, new_metric}

pub data DropPolicy : Type 0 where
  drop_newest drop_oldest : DropPolicy

pub record Buffer {ℓ} (A : Type ℓ) : Type ℓ where
  pub metrics : List A
  pub max_size : ℕ
  pub batch_size : ℕ
  pub drop_policy : DropPolicy

module _ {ℓ} {A : Type ℓ} where
  unfoldable pub new_buffer : ℕ → ℕ → DropPolicy → Buffer A
  new_buffer max_size batch_size policy = record {
    metrics = [];
    max_size = max_size;
    batch_size = batch_size;
    drop_policy = policy;
  }

  -- The switch for a full buffer; `b.metrics[0]` panics when there is no element.
  unfoldable pub add_full : DropPolicy → List A → Buffer A → A → Option (Buffer A)
  add_full drop_newest ms b m = some b
  add_full drop_oldest [] b m = none
  add_full drop_oldest (x ∷ ms) b m = some (record b { metrics = ms ++ m ∷ [] })

  unfoldable pub add_metric : Buffer A → A → Option (Buffer A)
  unfolding add_full
  add_metric b m =
      if leb b.max_size (length b.metrics)
      then add_full b.drop_policy b.metrics b m
      else some (record b { metrics = b.metrics ++ m ∷ [] })

  unfoldable pub add_metrics : Buffer A → List A → Option (Buffer A)
  add_metrics b [] = some b
  add_metrics b (m ∷ ms) = add_metric b m >>= λ b'. add_metrics b' ms

  unfoldable pub batch : Buffer A → List A × Buffer A
  batch b =
      let n = min b.batch_size (length b.metrics) in
      (take n b.metrics, record b { metrics = drop n b.metrics })

  -- Rounds of `Batch`, as a consumer takes them.
  unfoldable pub batches : ℕ → Buffer A → List (List A) × Buffer A
  batches ℕ.zero b = ([], b)
  batches (ℕ.suc rounds) b =
      let (taken, b') = batch b in let (later, b'') = batches rounds b' in (taken ∷ later, b'')

pub record Accumulator (F : Type 0) : Type 0 where
  pub metrics : List (Metric F)
  pub max_size : ℕ

module _ {F : Type 0} where
  unfoldable pub new_accumulator : ℕ → Accumulator F
  new_accumulator max_size = record { metrics = []; max_size = max_size }

  unfoldable pub accumulate :
      String → Map String → Map (Value F) → MetricType → ℕ → Accumulator F → Accumulator F
  accumulate name tags fields mt ts a =
      if leb a.max_size (length a.metrics)
      then a
      else record a { metrics = a.metrics ++ new_metric name tags fields mt ts ∷ [] }

  unfoldable pub add_gauge : String → Map String → Map (Value F) → ℕ → Accumulator F → Accumulator F
  add_gauge name tags fields now a = accumulate name tags fields gauge now a

  unfoldable pub add_counter :
      String → Map String → Map (Value F) → ℕ → Accumulator F → Accumulator F
  add_counter name tags fields now a = accumulate name tags fields counter now a

  unfoldable pub collect : Accumulator F → List (Metric F) × Accumulator F
  collect a = (a.metrics, record a { metrics = [] })
