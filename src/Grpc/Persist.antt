-- ===== src/Grpc/Persist.antt =====
-- internal/grpcclient/persist.go: the cache on disk as JSON. encoding/json is read through `Json`:
-- what a value or a text turns into when it is written and read back, or that it cannot be written.
-- A file is known by what json.Unmarshal makes of it; how a write and a read end is the environment's.
pub mod RoundTrip
use nodeagentx.Prelude.{
  ℕ, String, ◌*◌, Bool, Option, none, some, List, [], ◌∷◌, str_eq, if◌then◌else◌, ◌>>=◌, map,
}
use nodeagentx.Prelude.Maps.{Map, lookup, insert}
use nodeagentx.Prelude.Int.{ℤ}
use nodeagentx.Collector.Metric.{
  Metric, MetricType, Value, gauge, counter, histogram, int64, float64, go_int, float32, text, bool,
  other, new_metric, unix_milli,
}

-- `of_int` is float64(n); a NaN or an infinity is not finite, and json.Marshal refuses it.
pub record Json (F : Type 0) : Type 0 where
  pub of_int : ℤ → F
  pub is_finite : F → Bool
  pub reparse32 : F → F  -- the float64 that the text of a float32 reads back as
  pub reparse_other : ℕ → Option (Value F)
  pub text_back : String → String  -- a Go string, where invalid UTF-8 is replaced

pub record PersistedMetric (F : Type 0) : Type 0 where
  pub name : String
  pub tags : Map String
  pub fields : Map (Value F)
  pub type : String
  pub timestamp : ℕ

unfoldable pub metric_type_string : MetricType → String
metric_type_string counter = "counter"
metric_type_string gauge = "gauge"
metric_type_string histogram = "histogram"
metric_type_string _ = "gauge"

unfoldable pub metric_type_from_string : String → MetricType
metric_type_from_string s =
    if str_eq s "counter"
    then counter
    else if str_eq s "gauge"
    then gauge
    else if str_eq s "histogram"
    then histogram
    else gauge

module _ {F : Type 0} where
  to_persisted : Metric F → PersistedMetric F
  to_persisted m = record {
    name = m.name;
    tags = m.tags;
    fields = m.fields;
    type = metric_type_string m.metric_type;
    timestamp = unix_milli m.timestamp;
  }

module _ {F : Type 0} (j : Json F) where
  open j use {of_int, is_finite, reparse32, reparse_other, text_back}

  -- A field written by json.Marshal and read by json.Unmarshal into `any`: every number is a float64.
  unfoldable pub json_value : Value F → Option (Value F)
  json_value (int64 n) = some (float64 (of_int n))
  json_value (go_int n) = some (float64 (of_int n))
  json_value (float64 f) = if is_finite f then some (float64 f) else none
  json_value (float32 f) = if is_finite f then some (float64 (reparse32 f)) else none
  json_value (text s) = some (text (text_back s))
  json_value (bool b) = some (bool b)
  json_value (other k) = reparse_other k

  unfoldable pub json_fields : Map (Value F) → Option (Map (Value F))
  json_fields [] = some []
  json_fields ((k, v) ∷ m) =
      json_value v >>= λ v'. json_fields m >>= λ m'. some ((text_back k, v') ∷ m')

  unfoldable pub json_tags : Map String → Map String
  json_tags [] = []
  json_tags ((k, v) ∷ m) = (text_back k, text_back v) ∷ json_tags m

  -- The type is one of three texts of ASCII characters, which JSON keeps.
  json_metric : PersistedMetric F → Option (PersistedMetric F)
  json_metric p = json_fields p.fields >>= λ fields.
      some (record p { name = text_back p.name; tags = json_tags p.tags; fields = fields })

  json_all : List (PersistedMetric F) → Option (List (PersistedMetric F))
  json_all [] = some []
  json_all (p ∷ ps) = json_metric p >>= λ p'. json_all ps >>= λ ps'. some (p' ∷ ps')

  -- What json.Marshal's text reads back as; `none` when it fails.
  unfoldable pub marshal_metrics : List (Metric F) → Option (List (PersistedMetric F))
  unfolding to_persisted json_metric json_all json_fields json_tags json_value metric_type_string
  marshal_metrics ms = json_all (map to_persisted ms)

module _ {F : Type 0} where
  from_persisted : PersistedMetric F → Metric F
  from_persisted pm =
      new_metric pm.name pm.tags pm.fields (metric_type_from_string pm.type)
        (pm.timestamp * 1_000_000)

  unfoldable pub rebuild_metrics : List (PersistedMetric F) → List (Metric F)
  unfolding from_persisted
  rebuild_metrics = map from_persisted

-- The files by their paths; `none` is one that json.Unmarshal refuses.
abbrev pub Files : Type 0 → Type 0
Files F = Map (Option (List (PersistedMetric F)))

-- How os.WriteFile ends: a failed one leaves the files in any state.
pub data WriteOutcome (F : Type 0) : Type 0 where
  written : WriteOutcome F
  not_written : String → Files F → WriteOutcome F

pub data PersistError : Type 0 where
  marshal_failed : PersistError
  write_failed : String → PersistError

pub data LoadError : Type 0 where
  read_failed : String → LoadError
  no_such_file unmarshal_failed : LoadError

pub data Loaded (F : Type 0) : Type 0 where
  loaded : List (Metric F) → Loaded F
  load_failed : LoadError → Loaded F

module _ {F : Type 0} where
  -- os.WriteFile of what was marshalled.
  unfoldable pub write_file :
      String
      → Option (List (PersistedMetric F))
      → WriteOutcome F
      → Files F
      → Option PersistError × Files F
  write_file path none outcome files = (some marshal_failed, files)
  write_file path (some ps) written files = (none, insert path (some ps) files)
  write_file path (some ps) (not_written e left) files = (some (write_failed e), left)

  unfoldable pub persist_metrics :
      Json F → List (Metric F) → String → WriteOutcome F → Files F → Option PersistError × Files F
  unfolding write_file marshal_metrics
  persist_metrics j ms path outcome files = write_file path (marshal_metrics j ms) outcome files

  -- The text of a file that was read, if there is one.
  unfoldable pub unmarshal : Option (Option (List (PersistedMetric F))) → Loaded F
  unfolding rebuild_metrics
  unmarshal none = load_failed no_such_file
  unmarshal (some none) = load_failed unmarshal_failed
  unmarshal (some (some ps)) = loaded (rebuild_metrics ps)

  -- `fault` is an error of os.ReadFile other than a missing file.
  unfoldable pub load_metrics : String → Option String → Files F → Loaded F
  unfolding unmarshal lookup
  load_metrics path none files = unmarshal (lookup path files)
  load_metrics path (some e) files = load_failed (read_failed e)
