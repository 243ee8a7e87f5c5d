-- ===== src/Grpc/Client/Conserve.antt =====
-- No metric is dropped or sent twice by the client's handling of its cache. That the stream accepts a
-- message does not say that the platform receives it.
use nodeagentx.Prelude.{
  ◌≡◌, ◌⊎◌, inl, inr, refl, Bool, true, false, not, ◌||◌, Option, none, some, List, [], ◌∷◌, ◌++◌,
  if◌then◌else◌, length, append-nil, arith, ap, sym, ◌∙◌, subst, All, Bool-cases,
}
use nodeagentx.Grpc.Cache.Refine.{Holds, drain-Holds}
use nodeagentx.Grpc.Cache.Newest.{add_all, add_all-Holds}
use nodeagentx.Prelude.Newest.{newest, newest-all}
use nodeagentx.Grpc.Client.{
  metric_batch, Net, Client, batch_size, send, cache_all, send_metrics, replay_loop, replay_cache,
  flush_loop, Flushed, close_conn, keep_rest, flush_and_stop,
}
use nodeagentx.Grpc.Client.Loops.{
  metrics_in, next_outcome, Batched, Accounts, Accounts-none, send_cases, replay_loop-Accounts,
  flush_loop-Accounts, no_nil-map, replay_loop_sends,
}

module _ {M : Type 0} where
  -- A replay over an open stream, after messages of at most 100 metrics, never panics. Every cached
  -- metric is afterwards either in a message that the stream has accepted (Send returned nil), behind
  -- those accepted before, or back in the cache; the order is that of the cache, none is in neither or
  -- twice, and no message carries more than 100 metrics. It does not say what the platform receives.
  pub replay_cache_conserves :
      (c : Client M) (q : List M) (net : Net M)
      → c.stream ≡ true
      → Holds c.cache q
      → Batched batch_size net.accepted
      → (c' : Client M) × (net' : Net M) × (q' : List M) × (replay_cache c net ≡ some (c', net'))
        × Holds c'.cache q'
        × (metrics_in net'.accepted ++ q' ≡ metrics_in net.accepted ++ q)
        × Batched batch_size net'.accepted
  unfolding replay_cache cache_all add_all
  replay_cache_conserves c q net up v b =
      let (cache, e, v', m) = drain-Holds c.cache q v in
      let r = replay_loop (length q) batch_size q net in
      let a : Accounts batch_size q net r = replay_loop-Accounts (length q) batch_size q net b in
      let (cache', e', v'', m') = add_all-Holds cache [] r.0 v' in
      (
        record c { cache = cache' },
        r.1,
        r.0,
        rw (e, no_nil-map q, up, e'),
        subst (Holds cache')
            (newest-all cache.max_size r.0 (omega (arith, a.shorter, v.counted, v.bounded, m))) v'',
        a.total,
        a.batched,
      )

  -- What a flush did with the metrics that it did not send.
  abbrev pub handed_over : Option (List M) → List M
  handed_over none = []
  handed_over (some ms) = ms

  keep_rest_lem :
      (has_path : Bool) (c : Client M) (rest : List M) (net : Net M)
      → let r = keep_rest has_path c rest net in
        (handed_over r.persisted ++ r.dropped ≡ rest)
        × (r.net ≡ net)
        × (r.client ≡ close_conn c)
        × ((has_path ≡ false) ⊎ (r.dropped ≡ []))
  unfolding keep_rest
  keep_rest_lem has_path c [] net = (refl, refl, refl, inr refl)
  keep_rest_lem true c (m ∷ ms) net = (append-nil (m ∷ ms), refl, refl, inr refl)
  keep_rest_lem false c (m ∷ ms) net = (refl, refl, refl, inl refl)

  flush_rest : Bool → List Bool → List M → Net M → List M × Net M
  flush_rest up expired ms net =
      if up then flush_loop (length ms) batch_size expired ms net else (ms, net)

  flush_rest-Accounts :
      (up : Bool) (expired : List Bool) (ms : List M) (net : Net M)
      → Batched batch_size net.accepted
      → Accounts batch_size ms net (flush_rest up expired ms net)
  unfolding flush_rest
  flush_rest-Accounts true expired ms net b =
      flush_loop-Accounts (length ms) batch_size expired ms net b
  flush_rest-Accounts false expired ms net b = Accounts-none batch_size ms net b

  -- A shutdown, after messages of at most 100 metrics, never panics, closes the stream and empties the
  -- cache. Every cached metric is either in a message that the stream has accepted (Send returned nil),
  -- or handed to persistMetrics, or dropped, in the order of the cache, none is dropped when a path for
  -- the file is configured, and no message carries more than 100 metrics. It does not say what the
  -- platform receives, nor whether the file is written.
  pub flush_and_stop_conserves :
      (c : Client M) (q : List M) (net : Net M) (expired : List Bool) (has_path : Bool)
      → Holds c.cache q
      → Batched batch_size net.accepted
      → (r : Flushed M) × (flush_and_stop c expired has_path net ≡ some r)
        × Holds r.client.cache []
        × (r.client.stream ≡ false)
        × (metrics_in r.net.accepted ++ (handed_over r.persisted ++ r.dropped)
            ≡ metrics_in net.accepted ++ q)
        × ((has_path ≡ false) ⊎ (r.dropped ≡ []))
        × Batched batch_size r.net.accepted
  unfolding flush_and_stop flush_rest
  flush_and_stop_conserves c q net expired has_path v b =
      let (cache, e, v', m) = drain-Holds c.cache q v in
      let r = flush_rest c.stream expired q net in
      let a : Accounts batch_size q net r = flush_rest-Accounts c.stream expired q net b in
      let c' = record c { cache = cache } in
      let k = keep_rest has_path c' r.0 r.1 in
      let (kept, kn, kc, kd) = keep_rest_lem has_path c' r.0 r.1 in
      (
        keep_rest has_path c' r.0 r.1,
        rw (e, no_nil-map q),
        subst (λ (d : Client M). Holds d.cache []) (sym kc) v',
        ap (λ (d : Client M). d.stream) kc,
        ap (λ (n : Net M). metrics_in n.accepted ++ (handed_over k.persisted ++ k.dropped)) kn
            ∙ ap (λ l. metrics_in r.1.accepted ++ l) kept
            ∙ a.total,
        kd,
        subst (λ (n : Net M). Batched batch_size n.accepted) (sym kn) a.batched,
      )

  -- When every Send returns nil, and no earlier message carries more than 100 metrics, a replay over
  -- an open stream gets through all rounds: it leaves the cache empty, and the stream has accepted all
  -- that was cached, in its order. It does not say what the platform receives.
  pub replay_cache_sends :
      (c : Client M) (q : List M) (net : Net M)
      → c.stream ≡ true
      → Holds c.cache q
      → Batched batch_size net.accepted
      → All (λ o. o ≡ true) net.outcomes
      → (c' : Client M) × (net' : Net M) × (replay_cache c net ≡ some (c', net'))
        × Holds c'.cache []
        × (metrics_in net'.accepted ≡ metrics_in net.accepted ++ q)
  unfolding replay_cache cache_all add_all
  replay_cache_sends c q net up v b o =
      let (cache, e, v', m) = drain-Holds c.cache q v in
      let r = replay_loop (length q) batch_size q net in
      let a : Accounts batch_size q net r = replay_loop-Accounts (length q) batch_size q net b in
      let done : r.0 ≡ [] =
        replay_loop_sends (length q) batch_size q net (omega arith) (omega arith) o in
      (
        record c { cache = cache },
        r.1,
        rw (e, no_nil-map q, up, done, add_all),
        v',
        sym (append-nil (metrics_in r.1.accepted))
            ∙ ap (λ l. metrics_in r.1.accepted ++ l) (sym done)
            ∙ a.total,
      )

  cache_all_lem :
      (c : Client M) (q ms : List M)
      → Holds c.cache q
      → (c' : Client M) × (cache_all c ms ≡ some c')
        × Holds c'.cache (newest c.cache.max_size (q ++ ms))
  unfolding cache_all
  cache_all_lem c q ms v =
      let (cache, e, v', m) = add_all-Holds c.cache q ms v in (record c { cache = cache }, rw e, v')

  -- The message gets out: there is a stream, and its next send succeeds.
  abbrev pub reaches : Client M → Net M → Bool
  reaches c net = if not c.connected || not c.stream then false else next_outcome net.outcomes

  -- Sending metrics never panics. They either go out as one message, and the cache stays as it was, or
  -- nothing goes out and the cache holds the newest of what it held followed by them.
  pub send_metrics_cases :
      (c : Client M) (q : List M) (m : M) (ms : List M) (net : Net M)
      → Holds c.cache q
      → (c' : Client M) × (net' : Net M) × (send_metrics c (m ∷ ms) net ≡ some (c', net'))
        × (((reaches c net ≡ true)
              × (net'.accepted ≡ net.accepted ++ metric_batch (m ∷ ms) ∷ [])
              × Holds c'.cache q)
            ⊎ ((reaches c net ≡ false)
                × (net'.accepted ≡ net.accepted)
                × Holds c'.cache (newest c.cache.max_size (q ++ m ∷ ms))))
  unfolding send_metrics
  send_metrics_cases c q m ms net v =
      let (c', e, v') = cache_all_lem c q (m ∷ ms) v in
      elim (Bool-cases (not c.connected || not c.stream)) [
        | inl down ↦ (c', net, rw (down, e), inr (rw down, refl, v'))
        | inr up ↦ elim (send_cases (metric_batch (m ∷ ms)) net) [
          | inl (o, s, d) ↦
              (c, (send (metric_batch (m ∷ ms)) net).1, rw (up, s), inl (rw up o, d, v))
          | inr (o, s, d) ↦
              (c', (send (metric_batch (m ∷ ms)) net).1, rw (up, s, e), inr (rw up o, d, v'))
        ]
      ]
