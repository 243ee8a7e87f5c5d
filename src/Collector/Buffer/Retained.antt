-- ===== src/Collector/Buffer/Retained.antt =====
-- What a buffer retains of the metrics that are added to it, and what its batches give back.
use nodeagentx.Prelude.{
  ℕ, zero, suc, ◌-◌, ◌≤◌, ◌<◌, ◌≡◌, refl, some, List, [], ◌∷◌, ◌++◌, length, take, leb, arith, ap,
  sym, ◌∙◌, Bool-cases, inl, inr, append_assoc, append-nil, length-append, length-take,
}
use nodeagentx.Prelude.Newest.{newest, newest-all, newest-newest_append, length-newest}
use nodeagentx.Collector.Buffer.{
  DropPolicy, drop_newest, drop_oldest, Buffer, add_full, add_metric, add_metrics,
}

module _ {ℓ} {A : Type ℓ} where
  -- The first or the last `m` metrics, as the policy says.
  abbrev pub retained : DropPolicy → ℕ → List A → List A
  retained drop_newest m xs = take m xs
  retained drop_oldest m xs = newest m xs

  pub take-all : (m : ℕ) (xs : List A) → length xs ≤ m → take m xs ≡ xs
  take-all zero [] h = refl
  take-all (suc m) [] h = refl
  take-all zero (x ∷ xs) h = absurd (omega arith)
  take-all (suc m) (x ∷ xs) h = ap (λ zs. x ∷ zs) (take-all m xs (omega arith))

  pub take-take_append : (m : ℕ) (xs ys : List A) → take m (take m xs ++ ys) ≡ take m (xs ++ ys)
  take-take_append zero xs ys = refl
  take-take_append (suc m) [] ys = refl
  take-take_append (suc m) (x ∷ xs) ys = ap (λ zs. x ∷ zs) (take-take_append m xs ys)

  retained-retained_append :
      (p : DropPolicy) (m : ℕ) (xs ys : List A)
      → retained p m (retained p m xs ++ ys) ≡ retained p m (xs ++ ys)
  retained-retained_append drop_newest m xs ys = take-take_append m xs ys
  retained-retained_append drop_oldest m xs ys = newest-newest_append m xs ys

  retained-all : (p : DropPolicy) (m : ℕ) (xs : List A) → length xs ≤ m → retained p m xs ≡ xs
  retained-all drop_newest m xs h = take-all m xs h
  retained-all drop_oldest m xs h = newest-all m xs h

  length-retained : (p : DropPolicy) (m : ℕ) (xs : List A) → length (retained p m xs) ≤ m
  length-retained drop_newest m xs = omega (arith, length-take m xs)
  length-retained drop_oldest m xs = length-newest m xs

  pub take-append : (m : ℕ) (xs ys : List A) → m ≤ length xs → take m (xs ++ ys) ≡ take m xs
  take-append zero xs ys h = refl
  take-append (suc m) [] ys h = absurd (omega arith)
  take-append (suc m) (x ∷ xs) ys h = ap (λ zs. x ∷ zs) (take-append m xs ys (omega arith))

  -- A full buffer of positive size does what its policy says, and does not panic.
  add_full_lem :
      (p : DropPolicy) (ms : List A) (b : Buffer A) (x : A)
      → ms ≡ b.metrics
      → 0 < b.max_size
      → length ms ≡ b.max_size
      → add_full p ms b x ≡ some (record b { metrics = retained p b.max_size (ms ++ x ∷ []) })
  unfolding add_full
  add_full_lem drop_newest ms b x e h l =
      ap (λ m. some (record b { metrics = m }))
        (sym e
          ∙ sym (
              take-append b.max_size ms (x ∷ []) (omega (arith, l))
              ∙ take-all b.max_size ms (omega (arith, l))))
  add_full_lem drop_oldest [] b x e h l = absurd (omega (arith, l))
  add_full_lem drop_oldest (y ∷ ms) b x e h l =
      let one : length (y ∷ ms ++ x ∷ []) - b.max_size ≡ 1 =
        omega (arith, length-append ms (x ∷ []), l) in
      rw one

  add_metric_lem :
      (b : Buffer A) (x : A)
      → 0 < b.max_size
      → length b.metrics ≤ b.max_size
      → add_metric b x
        ≡ some (record b { metrics = retained b.drop_policy b.max_size (b.metrics ++ x ∷ []) })
  unfolding add_metric
  add_metric_lem b x h l = elim (Bool-cases (leb b.max_size (length b.metrics))) [
    | inl e ↦
        rw (e, add_metric) (add_full_lem b.drop_policy b.metrics b x refl h (ground (arith, e, l)))
    | inr e ↦
        let fits : length (b.metrics ++ x ∷ []) ≤ b.max_size =
          ground (arith, e, length-append b.metrics (x ∷ [])) in
        rw (e, add_metric)
          (ap (λ m. some (record b { metrics = m }))
            (sym (retained-all b.drop_policy b.max_size (b.metrics ++ x ∷ []) fits)))
  ]

  -- A buffer of positive size never panics. After any metrics were added it has the first ones, or
  -- the last ones, of what it had followed by them, in order and as many as fit, by its policy.
  pub add_metrics-retained :
      (b : Buffer A) (xs : List A)
      → 0 < b.max_size
      → length b.metrics ≤ b.max_size
      → add_metrics b xs
        ≡ some (record b { metrics = retained b.drop_policy b.max_size (b.metrics ++ xs) })
  unfolding add_metrics
  add_metrics-retained b [] h l =
      ap (λ m. some (record b { metrics = m }))
        (sym (
          ap (retained b.drop_policy b.max_size) (append-nil b.metrics)
          ∙ retained-all b.drop_policy b.max_size b.metrics l))
  add_metrics-retained b (x ∷ xs) h l =
      let ms = retained b.drop_policy b.max_size (b.metrics ++ x ∷ []) in
      rw (add_metric_lem b x h l) (
        add_metrics-retained (record b { metrics = ms }) xs h
          (length-retained b.drop_policy b.max_size (b.metrics ++ x ∷ []))
        ∙ ap (λ m. some (record b { metrics = m }))
            (retained-retained_append b.drop_policy b.max_size (b.metrics ++ x ∷ []) xs
              ∙ ap (retained b.drop_policy b.max_size) (append_assoc b.metrics (x ∷ []) xs)))
