-- ===== src/Tests/Grpc.antt =====
-- Runs of the client's cache, its loops, and the file.
use nodeagentx.Prelude.{ℕ, ◌≡◌, refl, true, false, none, some, List, [], ◌∷◌, ◌++◌, arith, ◌⊎◌}
use nodeagentx.Prelude.Int.{pos}
use nodeagentx.Collector.Metric.{Metric, float64, text, counter}
use nodeagentx.Grpc.Cache.{MetricCache, add, drain}
use nodeagentx.Grpc.Cache.Refine.{Holds, add-Holds, drain-Holds}
use nodeagentx.Grpc.Client.{
  Client, Net, metric_batch, replay_cache, flush_and_stop, Flushed, batch_size,
}
use nodeagentx.Grpc.Client.Loops.{Batched, metrics_in}
use nodeagentx.Grpc.Client.Conserve.{
  handed_over, replay_cache_conserves, flush_and_stop_conserves, replay_cache_sends,
}
use nodeagentx.Grpc.Persist.{Json, written, loaded, persist_metrics, load_metrics}
use nodeagentx.Grpc.Persist.RoundTrip.{IsPortableMetric, load-persist}
use nodeagentx.Prelude.Maps.{lookup}

-- Slot 1 holds the oldest entry, and the ring is full.
abbrev full_cache : MetricCache ℕ
full_cache = record { buf = some 4 ∷ some 5 ∷ []; max_size = 2; head = 1; tail = 1; count = 2 }

full_cache-Holds : Holds full_cache (5 ∷ 4 ∷ [])
full_cache-Holds = record {
  sized = refl;
  positive = omega arith;
  counted = refl;
  bounded = omega arith;
  tail_in = omega arith;
  head_at = refl;
  stored = (refl, (refl, tt));
}

overwrites :
    add full_cache 6
    ≡ some (record { buf = some 4 ∷ some 6 ∷ []; max_size = 2; head = 0; tail = 0; count = 2 })
unfolding add
overwrites = refl

add-Holds_example :
    (c : MetricCache ℕ) × (add full_cache 6 ≡ some c) × Holds c (4 ∷ 6 ∷ []) × (c.max_size ≡ 2)
add-Holds_example = add-Holds full_cache (5 ∷ 4 ∷ []) 6 full_cache-Holds

drain-Holds_example :
    (c : MetricCache ℕ) × (drain full_cache ≡ some (some 5 ∷ some 4 ∷ [], c))
    × Holds c []
    × (c.max_size ≡ 2)
drain-Holds_example = drain-Holds full_cache (5 ∷ 4 ∷ []) full_cache-Holds

abbrev client : Client ℕ
client = record { cache = full_cache; stream = true; connected = true }

-- The first send fails.
abbrev broken : Net ℕ
broken = record { outcomes = false ∷ []; accepted = metric_batch (1 ∷ []) ∷ [] }

abbrev up : Net ℕ
up = record { outcomes = []; accepted = [] }

replay_cache_conserves_example :
    (c : Client ℕ) × (net : Net ℕ) × (q : List ℕ) × (replay_cache client broken ≡ some (c, net))
    × Holds c.cache q
    × (metrics_in net.accepted ++ q ≡ 1 ∷ 5 ∷ 4 ∷ [])
    × Batched batch_size net.accepted
replay_cache_conserves_example =
    replay_cache_conserves client (5 ∷ 4 ∷ []) broken refl full_cache-Holds (omega arith)

flush_and_stop_conserves_example :
    (r : Flushed ℕ) × (flush_and_stop client [] true broken ≡ some r)
    × Holds r.client.cache []
    × (r.client.stream ≡ false)
    × (metrics_in r.net.accepted ++ (handed_over r.persisted ++ r.dropped) ≡ 1 ∷ 5 ∷ 4 ∷ [])
    × ((true ≡ false) ⊎ (r.dropped ≡ []))
    × Batched batch_size r.net.accepted
flush_and_stop_conserves_example =
    flush_and_stop_conserves client (5 ∷ 4 ∷ []) broken [] true full_cache-Holds (omega arith)

replay_cache_sends_example :
    (c : Client ℕ) × (net : Net ℕ) × (replay_cache client up ≡ some (c, net))
    × Holds c.cache []
    × (metrics_in net.accepted ≡ 5 ∷ 4 ∷ [])
replay_cache_sends_example = replay_cache_sends client (5 ∷ 4 ∷ []) up refl full_cache-Holds tt tt

-- Floating point numbers stand as natural numbers here, all of them finite.
abbrev json : Json ℕ
json = record {
  of_int = λ n. elim n [ pos k ↦ k | _ ↦ 0 ];
  is_finite = λ f. true;
  reparse32 = λ f. f;
  reparse_other = λ k. none;
  text_back = λ s. s;
}

abbrev sample : Metric ℕ
sample = record {
  name = "cpu";
  tags = ("host", "a") ∷ [];
  fields = ("usage", float64 7) ∷ ("state", text "ok") ∷ [];
  timestamp = 5_000_000;
  metric_type = counter;
}

sample-IsPortable : IsPortableMetric json sample
unfolding lookup
sample-IsPortable = record {
  name_kept = refl;
  tags_kept = ((refl, refl), tt);
  keys_kept = (refl, (refl, tt));
  keys = (refl, (refl, tt));
  tag_keys = (refl, tt);
  values = (refl, (refl, tt));
  whole_ms = refl;
  listed = tt;
}

load-persist_example :
    let (error, after) = persist_metrics json (sample ∷ []) "cache.json" written [] in
    (error ≡ none) × (load_metrics "cache.json" none after ≡ loaded (sample ∷ []))
load-persist_example = load-persist json (sample ∷ []) "cache.json" [] (sample-IsPortable, tt)
