-- ===== src/Collector/Buffer/Batches.antt =====
-- What the batches of a buffer and the collections of an accumulator give back.
use nodeagentx.Prelude.{
  ℕ, zero, suc, ◌≤◌, ◌<◌, ◌≡◌, refl, String, List, [], ◌∷◌, ◌++◌, concat, length, take, drop, min,
  All, arith, ap, sym, ◌∙◌, append_assoc, length-take, length-drop, take-append-drop, Bool-cases,
  inl, inr, leb, map, append-nil, length-append,
}
use nodeagentx.Prelude.Maps.{Map}
use nodeagentx.Collector.Metric.{Metric, MetricType, Value, new_metric}
use nodeagentx.Collector.Buffer.{
  Buffer, batch, batches, Accumulator, accumulate, collect, new_accumulator,
}
use nodeagentx.Collector.Buffer.Retained.{take-all, take-take_append, take-append}

module _ {ℓ} {A : Type ℓ} where
  batches-concat :
      (rounds : ℕ) (b : Buffer A)
      → let (taken, b') = batches rounds b in
        (concat taken ++ b'.metrics ≡ b.metrics) × All (λ ms. length ms ≤ b.batch_size) taken
  unfolding batches batch
  batches-concat zero b = (refl, tt)
  batches-concat (suc rounds) b =
      let n = min b.batch_size (length b.metrics) in
      let (later, sizes) = batches-concat rounds (record b { metrics = drop n b.metrics }) in
      (
        append_assoc (take n b.metrics) _ _
            ∙ ap (λ ms. take n b.metrics ++ ms) later
            ∙ take-append-drop n b.metrics,
        (omega (arith, length-take n b.metrics), sizes),
      )

  length-batches :
      (rounds : ℕ) (b : Buffer A)
      → 0 < b.batch_size
      → length b.metrics ≤ rounds
      → length (batches rounds b).1.metrics ≡ 0
  unfolding batches batch
  length-batches zero b h l = omega (arith, l)
  length-batches (suc rounds) b h l =
      let n = min b.batch_size (length b.metrics) in
      length-batches rounds (record b { metrics = drop n b.metrics }) h
        (omega (arith, length-drop n b.metrics))

  nil_of_length : (xs : List A) → length xs ≡ 0 → xs ≡ []
  nil_of_length [] h = refl
  nil_of_length (x ∷ xs) h = absurd (omega (arith, h))

  -- Batches of a positive size, as many as the buffer has metrics, give all its metrics, each once and
  -- in order, leave the buffer empty, and none has more metrics than the batch size.
  pub batches_drain :
      (b : Buffer A)
      → 0 < b.batch_size
      → let (taken, b') = batches (length b.metrics) b in
        (concat taken ≡ b.metrics) × (b'.metrics ≡ []) × All (λ ms. length ms ≤ b.batch_size) taken
  batches_drain b h =
      let (taken, b') = batches (length b.metrics) b in
      let (whole, sizes) = batches-concat (length b.metrics) b in
      let left = nil_of_length b'.metrics (length-batches (length b.metrics) b h (omega arith)) in
      (
        sym (append-nil (concat taken)) ∙ ap (λ ms. concat taken ++ ms) (sym left) ∙ whole,
        left,
        sizes,
      )

-- The arguments of one addition: name, tags, fields, type and time.
abbrev pub Addition : Type 0 → Type 0
Addition F = String × Map String × Map (Value F) × MetricType × ℕ

module _ {F : Type 0} where
  abbrev pub made : Addition F → Metric F
  made (name, tags, fields, mt, ts) = new_metric name tags fields mt ts

  unfoldable pub accumulate_all : List (Addition F) → Accumulator F → Accumulator F
  accumulate_all [] a = a
  accumulate_all ((name, tags, fields, mt, ts) ∷ later) a =
      accumulate_all later (accumulate name tags fields mt ts a)

  accumulate_lem :
      (x : Addition F) (a : Accumulator F)
      → length a.metrics ≤ a.max_size
      → accumulate x.0 x.1 x.2 x.3 x.4 a
        ≡ record a { metrics = take a.max_size (a.metrics ++ made x ∷ []) }
  unfolding accumulate
  accumulate_lem x a l = elim (Bool-cases (leb a.max_size (length a.metrics))) [
    | inl e ↦
        rw (e, accumulate)
          (ap (λ ms. record a { metrics = ms })
            (sym (
              take-append a.max_size a.metrics (made x ∷ []) (ground (arith, e))
              ∙ take-all a.max_size a.metrics l)))
    | inr e ↦
        rw (e, accumulate)
          (ap (λ ms. record a { metrics = ms })
            (sym (
              take-all a.max_size (a.metrics ++ made x ∷ [])
                (ground (arith, e, length-append a.metrics (made x ∷ []))))))
  ]

  accumulate_all_lem :
      (xs : List (Addition F)) (a : Accumulator F)
      → length a.metrics ≤ a.max_size
      → accumulate_all xs a ≡ record a { metrics = take a.max_size (a.metrics ++ map made xs) }
  unfolding accumulate_all
  accumulate_all_lem [] a l =
      ap (λ ms. record a { metrics = ms })
        (sym (ap (take a.max_size) (append-nil a.metrics) ∙ take-all a.max_size a.metrics l))
  accumulate_all_lem (x ∷ xs) a l =
      let ms = take a.max_size (a.metrics ++ made x ∷ []) in
      ap (accumulate_all xs) (accumulate_lem x a l)
      ∙ accumulate_all_lem xs (record a { metrics = ms })
          (omega (arith, length-take a.max_size (a.metrics ++ made x ∷ [])))
      ∙ ap (λ k. record a { metrics = k })
          (take-take_append a.max_size (a.metrics ++ made x ∷ []) (map made xs)
            ∙ ap (take a.max_size) (append_assoc a.metrics (made x ∷ []) (map made xs)))

  -- What is collected from a new accumulator after any additions are the metrics made by the first of
  -- them, in order and as many as its size, and it is as new afterwards.
  pub collect-accumulate_all :
      (size : ℕ) (xs : List (Addition F))
      → collect (accumulate_all xs (new_accumulator size))
        ≡ (take size (map made xs), new_accumulator size)
  unfolding collect new_accumulator
  collect-accumulate_all size xs =
      ap collect (accumulate_all_lem xs (new_accumulator size) (omega arith))
