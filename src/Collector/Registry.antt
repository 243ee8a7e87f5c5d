-- ===== src/Collector/Registry.antt =====
-- internal/collector/registry.go, and the four interfaces of plugins (input.go, processor.go,
-- aggregator.go, output.go): a plugin is its state, of a type for each kind, with the operations
-- that the pipeline calls.
use nodeagentx.Prelude.{ℕ, String, Option, List, []}
use nodeagentx.Prelude.Maps.{Map, lookup, insert}
use nodeagentx.Collector.Metric.{Metric}
use nodeagentx.Collector.Buffer.Batches.{Addition}

-- What Init returns: the plugin with its settings, or an error.
pub data Built (A : Type 0) : Type 0 where
  built : A → Built A
  init_failed : String → Built A

-- Gather adds metrics to an accumulator and may fail; Write may fail.
pub record Plugins (F : Type 0) : Type 1 where
  pub Input : Type 0
  pub Processor : Type 0
  pub Aggregator : Type 0
  pub Output : Type 0
  pub gather : Input → Input × List (Addition F) × Option String
  pub process : Processor → List (Metric F) → Processor × List (Metric F)
  pub add : Aggregator → Metric F → Aggregator
  pub push : Aggregator → List (Addition F)
  pub reset : Aggregator → Aggregator
  pub write : Output → List (Metric F) → Output × Option String

-- A factory, followed by the Init of what it makes.
abbrev pub Factory : Type 0 → Type 0
Factory A = Map ℕ → Built A

pub record Registry (I P A O : Type 0) : Type 0 where
  pub inputs : Map (Factory I)
  pub processors : Map (Factory P)
  pub aggregators : Map (Factory A)
  pub outputs : Map (Factory O)

module _ {I P A O : Type 0} where
  unfoldable pub new_registry : Registry I P A O
  new_registry = record { inputs = []; processors = []; aggregators = []; outputs = [] }

  unfoldable pub register_input : String → Factory I → Registry I P A O → Registry I P A O
  register_input name f r = record r { inputs = insert name f r.inputs }

  unfoldable pub register_processor : String → Factory P → Registry I P A O → Registry I P A O
  register_processor name f r = record r { processors = insert name f r.processors }

  unfoldable pub register_aggregator : String → Factory A → Registry I P A O → Registry I P A O
  register_aggregator name f r = record r { aggregators = insert name f r.aggregators }

  unfoldable pub register_output : String → Factory O → Registry I P A O → Registry I P A O
  register_output name f r = record r { outputs = insert name f r.outputs }

  unfoldable pub get_input : String → Registry I P A O → Option (Factory I)
  get_input name r = lookup name r.inputs

  unfoldable pub get_processor : String → Registry I P A O → Option (Factory P)
  get_processor name r = lookup name r.processors

  unfoldable pub get_aggregator : String → Registry I P A O → Option (Factory A)
  get_aggregator name r = lookup name r.aggregators

  unfoldable pub get_output : String → Registry I P A O → Option (Factory O)
  get_output name r = lookup name r.outputs
