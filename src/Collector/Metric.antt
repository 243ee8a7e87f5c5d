-- ===== src/Collector/Metric.antt =====
-- internal/collector/metric.go. `F` stands for Go's floating point numbers; a timestamp is a number
-- of nanoseconds since 1970. The maps of a metric are its own (`NewMetric` and the getters copy).
use nodeagentx.Prelude.{ℕ, String, ◌/◌, List, [], map}
use nodeagentx.Prelude.Int.{ℤ}
use nodeagentx.Prelude.Maps.{Map, insert, copy}
use mathlib.Core.Bool.{Bool}

pub data MetricType : Type 0 where
  gauge counter histogram : MetricType
  unlisted : ℕ → MetricType

-- The dynamic type of a field. `other` is any type that no switch of the program names.
pub data Value (F : Type 0) : Type 0 where
  int64 : ℤ → Value F
  float64 : F → Value F
  go_int : ℤ → Value F
  float32 : F → Value F
  text : String → Value F
  bool : Bool → Value F
  other : ℕ → Value F

pub record Metric (F : Type 0) : Type 0 where
  pub name : String
  pub tags : Map String
  pub fields : Map (Value F)
  pub timestamp : ℕ
  pub metric_type : MetricType

-- t.UnixMilli()
abbrev pub unix_milli : ℕ → ℕ
unix_milli t = t / 1_000_000

module _ {F : Type 0} where
  unfoldable pub new_metric : String → Map String → Map (Value F) → MetricType → ℕ → Metric F
  new_metric name tags fields mt ts = record {
    name = name;
    tags = copy [] tags;
    fields = copy [] fields;
    timestamp = ts;
    metric_type = mt;
  }

  unfoldable pub add_tag : String → String → Metric F → Metric F
  add_tag key value m = record m { tags = insert key value m.tags }

  unfoldable pub add_field : String → Value F → Metric F → Metric F
  add_field key value m = record m { fields = insert key value m.fields }

-- The `oneof` of the protobuf field: `unset` for a Go type that the switch does not name.
pub data ProtoValue (F : Type 0) : Type 0 where
  double_value : F → ProtoValue F
  int_value : ℤ → ProtoValue F
  string_value : String → ProtoValue F
  bool_value : Bool → ProtoValue F
  unset : ProtoValue F

pub record ProtoMetric (F : Type 0) : Type 0 where
  pub name : String
  pub tags : Map String
  pub fields : List (String × ProtoValue F)
  pub timestamp_ms : ℕ
  pub metric_type : MetricType

module _ {F : Type 0} where
  unfoldable pub proto_value : Value F → ProtoValue F
  proto_value (float64 f) = double_value f
  proto_value (int64 n) = int_value n
  proto_value (text s) = string_value s
  proto_value (bool b) = bool_value b
  proto_value _ = unset

  unfoldable pub to_proto : Metric F → ProtoMetric F
  unfolding proto_value
  to_proto m = record {
    name = m.name;
    tags = m.tags;
    fields = map (λ (k, v). (k, proto_value v)) m.fields;
    timestamp_ms = unix_milli m.timestamp;
    metric_type = m.metric_type;
  }
