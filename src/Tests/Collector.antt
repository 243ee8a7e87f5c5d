-- ===== src/Tests/Collector.antt =====
-- Runs of the buffer and of the accumulator.
use nodeagentx.Prelude.{ℕ, ◌≡◌, ◌≤◌, refl, some, none, [], ◌∷◌, All, length, concat, arith}
use nodeagentx.Collector.Metric.{gauge, int64}
use nodeagentx.Prelude.Int.{pos}
use nodeagentx.Collector.Buffer.{
  Buffer, drop_oldest, add_metric, add_metrics, batches, new_buffer, add_full,
}
use nodeagentx.Collector.Buffer.Retained.{add_metrics-retained}
use nodeagentx.Collector.Buffer.Batches.{Addition, batches_drain}

abbrev buffer : Buffer ℕ
buffer = record {
  metrics = 1 ∷ 2 ∷ 3 ∷ [];
  max_size = 3;
  batch_size = 2;
  drop_policy = drop_oldest;
}

-- A buffer without room for any metric panics when it drops the oldest.
no_room : add_metric {A = ℕ} (new_buffer 0 1 drop_oldest) 7 ≡ none
unfolding add_metric add_full new_buffer
no_room = refl

add_metrics-retained_example :
    add_metrics buffer (4 ∷ 5 ∷ []) ≡ some (record buffer { metrics = 3 ∷ 4 ∷ 5 ∷ [] })
add_metrics-retained_example = add_metrics-retained buffer (4 ∷ 5 ∷ []) (omega arith) (omega arith)

batches_drain_example :
    let (taken, b') = batches 3 buffer in
    (concat taken ≡ 1 ∷ 2 ∷ 3 ∷ []) × (b'.metrics ≡ []) × All (λ ms. length ms ≤ 2) taken
batches_drain_example = batches_drain buffer (omega arith)

abbrev addition : Addition ℕ
addition = ("cpu", [], ("used", int64 (pos 4)) ∷ [], gauge, 9)
