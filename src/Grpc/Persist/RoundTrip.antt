-- ===== src/Grpc/Persist/RoundTrip.antt =====
-- What a metric that was written to disk is when it is read back.
use nodeagentx.Prelude.{
  ℕ, ◌*◌, ◌≡◌, refl, true, some, List, [], ◌∷◌, >>=-eq-some, subst, map, All, arith, ap, ◌∙◌,
  String, none,
}
use mathlib.Core.Option.{some-injective}
use nodeagentx.Prelude.Maps.{Map, Distinct, AllValues, copy-nil, AllValues-copy, lookup-insert_self}
use nodeagentx.Collector.Metric.{
  Metric, MetricType, Value, gauge, counter, histogram, unlisted, int64, float64, go_int, float32,
  text, bool, other, new_metric, unix_milli,
}
use nodeagentx.Grpc.Persist.{
  Json, PersistedMetric, metric_type_string, metric_type_from_string, json_value, json_fields,
  to_persisted, from_persisted, json_metric, json_all, json_tags, marshal_metrics, rebuild_metrics,
  Files, written, loaded, write_file, persist_metrics, unmarshal, load_metrics,
}

-- The types that the two switches name.
abbrev IsListed : MetricType → Type 0
IsListed (unlisted n) = ⊥
IsListed _ = Unit

pub metric_type_from_string-metric_type_string :
    (t : MetricType) → IsListed t → metric_type_from_string (metric_type_string t) ≡ t
unfolding metric_type_string metric_type_from_string
metric_type_from_string-metric_type_string counter h = refl
metric_type_from_string-metric_type_string gauge h = refl
metric_type_from_string-metric_type_string histogram h = refl
metric_type_from_string-metric_type_string (unlisted n) h = absurd h

module _ {F : Type 0} (j : Json F) where
  open j use {of_int, is_finite, reparse32, reparse_other, text_back}

  -- The fields that JSON keeps: finite float64s, texts that read back as they are, and booleans.
  abbrev IsPortable : Value F → Type 0
  IsPortable (float64 f) = is_finite f ≡ true
  IsPortable (text s) = text_back s ≡ s
  IsPortable (bool b) = Unit
  IsPortable _ = ⊥

  pub record IsPortableMetric (m : Metric F) : Type 0 where
    pub name_kept : text_back m.name ≡ m.name
    pub tags_kept : All (λ kv. (text_back kv.0 ≡ kv.0) × (text_back kv.1 ≡ kv.1)) m.tags
    pub keys_kept : All (λ kv. text_back kv.0 ≡ kv.0) m.fields
    pub keys : Distinct m.fields
    pub tag_keys : Distinct m.tags
    pub values : AllValues IsPortable m.fields
    pub whole_ms : unix_milli m.timestamp * 1_000_000 ≡ m.timestamp
    pub listed : IsListed m.metric_type

  json_value_portable : (v : Value F) → IsPortable v → json_value j v ≡ some v
  unfolding json_value
  json_value_portable (float64 f) h = rw h
  json_value_portable (text s) h = ap (λ t. some (text t)) h
  json_value_portable (bool b) h = refl
  json_value_portable (int64 n) h = absurd h
  json_value_portable (go_int n) h = absurd h
  json_value_portable (float32 f) h = absurd h
  json_value_portable (other k) h = absurd h

  json_tags_portable :
      (m : Map String)
      → All (λ kv. (text_back kv.0 ≡ kv.0) × (text_back kv.1 ≡ kv.1)) m
      → json_tags j m ≡ m
  unfolding json_tags
  json_tags_portable [] h = refl
  json_tags_portable ((k, v) ∷ m) ((key, value), hs) =
      λ i. (key i, value i) ∷ json_tags_portable m hs i

  json_fields_portable :
      (m : Map (Value F))
      → All (λ kv. text_back kv.0 ≡ kv.0) m
      → AllValues IsPortable m
      → json_fields j m ≡ some m
  unfolding json_fields
  json_fields_portable [] ks h = refl
  json_fields_portable ((k, v) ∷ m) (key, ks) (h, hs) =
      rw (json_value_portable v h, json_fields_portable m ks hs, key) refl

  json_metric_portable :
      (m : Metric F) → IsPortableMetric m → json_metric j (to_persisted m) ≡ some (to_persisted m)
  unfolding json_metric to_persisted
  json_metric_portable m h = rw (json_fields_portable m.fields h.keys_kept h.values) (λ i.
      some (record {
        name = h.name_kept i;
        tags = json_tags_portable m.tags h.tags_kept i;
        fields = m.fields;
        type = metric_type_string m.metric_type;
        timestamp = unix_milli m.timestamp;
      }))

  json_all_portable :
      (ms : List (Metric F))
      → All IsPortableMetric ms
      → json_all j (map to_persisted ms) ≡ some (map to_persisted ms)
  unfolding json_all
  json_all_portable [] h = refl
  json_all_portable (m ∷ ms) (h, hs) = rw (json_metric_portable m h, json_all_portable ms hs) refl

  from_persisted-to_persisted :
      (m : Metric F) → IsPortableMetric m → from_persisted (to_persisted m) ≡ m
  unfolding from_persisted to_persisted new_metric
  from_persisted-to_persisted m h = λ i. record {
    name = m.name;
    tags = copy-nil m.tags h.tag_keys i;
    fields = copy-nil m.fields h.keys i;
    timestamp = h.whole_ms i;
    metric_type = metric_type_from_string-metric_type_string m.metric_type h.listed i;
  }

  load-to_persisted :
      (ms : List (Metric F)) → All IsPortableMetric ms → rebuild_metrics (map to_persisted ms) ≡ ms
  unfolding rebuild_metrics
  load-to_persisted [] h = refl
  load-to_persisted (m ∷ ms) (h, hs) = rw (from_persisted-to_persisted m h, load-to_persisted ms hs)

  -- Metrics whose fields are finite float64s, texts and booleans, all of whose texts JSON keeps, whose
  -- timestamp is a whole number of milliseconds and whose type is a listed one: when os.WriteFile
  -- succeeds, persistMetrics returns no error, and loadMetrics of that path, when os.ReadFile succeeds,
  -- gives the same metrics in the same order.
  pub load-persist :
      (ms : List (Metric F)) (path : String) (files : Files F)
      → All IsPortableMetric ms
      → let (error, after) = persist_metrics j ms path written files in
        (error ≡ none) × (load_metrics path none after ≡ loaded ms)
  unfolding persist_metrics marshal_metrics load_metrics unmarshal
  load-persist ms path files h =
      let read_back = json_all_portable ms h in
      (
        rw (read_back, write_file) refl,
        rw (read_back, write_file)
            (ap unmarshal (lookup-insert_self path (some (map to_persisted ms)) files)
              ∙ ap loaded (load-to_persisted ms h)),
      )

  abbrev pub IsInt64 : Value F → Type 0
  IsInt64 (int64 n) = Unit
  IsInt64 _ = ⊥

  module _ (decodes : (k : ℕ) (v : Value F) → reparse_other k ≡ some v → ¬ IsInt64 v) where
    json_value-IsInt64 : (v v' : Value F) → json_value j v ≡ some v' → ¬ IsInt64 v'
    unfolding json_value
    json_value-IsInt64 (int64 n) v' h = ground arith
    json_value-IsInt64 (go_int n) v' h = ground arith
    json_value-IsInt64 (float64 f) v' h = ground arith
    json_value-IsInt64 (float32 f) v' h = ground arith
    json_value-IsInt64 (text s) v' h = ground arith
    json_value-IsInt64 (bool b) v' h = ground arith
    json_value-IsInt64 (other k) v' h = decodes k v' h

    json_fields-IsInt64 :
        (m : Map (Value F)) {m' : Map (Value F)}
        → json_fields j m ≡ some m'
        → AllValues (λ v. ¬ IsInt64 v) m'
    unfolding json_fields
    json_fields-IsInt64 [] h = subst (AllValues (λ v. ¬ IsInt64 v)) (some-injective _ _ h) tt
    json_fields-IsInt64 ((k, v) ∷ m) h =
        let (v', e, h1) = >>=-eq-some (json_value j v) _ h in
        let (rest, e', h2) = >>=-eq-some (json_fields j m) _ h1 in
        subst (AllValues (λ v. ¬ IsInt64 v)) (some-injective _ _ h2)
          (json_value-IsInt64 v v' e, json_fields-IsInt64 m e')

    json_all-IsInt64 :
        (ps : List (PersistedMetric F)) {qs : List (PersistedMetric F)}
        → json_all j ps ≡ some qs
        → All (λ m. AllValues (λ v. ¬ IsInt64 v) m.fields) (rebuild_metrics qs)
    unfolding json_all json_metric rebuild_metrics from_persisted new_metric
    json_all-IsInt64 [] h =
        subst (λ qs. All (λ m. AllValues (λ v. ¬ IsInt64 v) m.fields) (rebuild_metrics qs))
          (some-injective _ _ h) tt
    json_all-IsInt64 (p ∷ ps) h =
        let (q, e, h1) = >>=-eq-some (json_metric j p) _ h in
        let (fields, ef, e1) = >>=-eq-some (json_fields j p.fields) _ e in
        let (rest, e', h2) = >>=-eq-some (json_all j ps) _ h1 in
        subst (λ qs. All (λ m. AllValues (λ v. ¬ IsInt64 v) m.fields) (rebuild_metrics qs))
          (some-injective _ _ h2)
          (
            AllValues-copy (λ v. ¬ IsInt64 v) [] q.fields tt
                (subst (λ (r : PersistedMetric F). AllValues (λ v. ¬ IsInt64 v) r.fields)
                  (some-injective _ _ e1) (json_fields-IsInt64 p.fields ef)),
            json_all-IsInt64 ps e',
          )

    -- No field of a metric that was written to disk and read back is an int64, whatever was written,
    -- provided that JSON never decodes a value of a type the program does not name as an int64.
    pub load-persist-IsInt64 :
        (ms : List (Metric F)) {ps : List (PersistedMetric F)}
        → marshal_metrics j ms ≡ some ps
        → All (λ m. AllValues (λ v. ¬ IsInt64 v) m.fields) (rebuild_metrics ps)
    unfolding marshal_metrics
    load-persist-IsInt64 ms h = json_all-IsInt64 (map to_persisted ms) h
