-- ===== src/Grpc/Client.antt =====
-- internal/grpcclient/client.go: what the client does with metrics and results while the stream to
-- the platform is up, down, or breaks in the middle. `M` stands for `*collector.Metric`.
-- A send may fail at any time: the outcomes are the environment's, one for each call of
-- `stream.Send`. The callers hold no lock over a whole operation; each operation is one step here.
pub mod Loops
pub mod Conserve
use nodeagentx.Prelude.{
  ℕ, zero, suc, Bool, true, false, not, ◌&&◌, ◌||◌, Option, none, some, List, [], ◌∷◌, ◌++◌, String,
  if◌then◌else◌, ◌>>=◌, take, drop, length,
}
use nodeagentx.Grpc.Cache.{MetricCache, drain}
use nodeagentx.Grpc.Cache.Newest.{add_all}

-- The payloads of the stream that this part sends.
pub data Message (M : Type 0) : Type 0 where
  registration : Message M
  heartbeat : Message M
  metric_batch : List M → Message M
  exec_output : String → String → List ℕ → Message M
  exec_result : String → Message M
  health_check_result : String → Message M

-- The messages that the stream has accepted, oldest first, and how the next sends will end. Past the
-- end of `outcomes` every send succeeds. The stream accepts a message when Send returns nil; it does
-- not wait for the platform, so whether the message arrives is not modelled.
pub record Net (M : Type 0) : Type 0 where
  pub outcomes : List Bool
  pub accepted : List (Message M)

pub record Client (M : Type 0) : Type 0 where
  pub cache : MetricCache M
  pub stream : Bool  -- c.stream != nil
  pub connected : Bool

abbrev pub batch_size : ℕ
batch_size = 100

module _ {M : Type 0} where
  -- stream.Send(msg) == nil
  send_with : List Bool → Message M → Net M → Bool × Net M
  send_with [] msg net = (true, record net { accepted = net.accepted ++ msg ∷ [] })
  send_with (true ∷ os) msg net =
      (true, record { outcomes = os; accepted = net.accepted ++ msg ∷ [] })
  send_with (false ∷ os) msg net = (false, record net { outcomes = os })

  unfoldable pub send : Message M → Net M → Bool × Net M
  unfolding send_with
  send msg net = send_with net.outcomes msg net

  -- Adds metrics to the client's cache; `none` if the ring buffer panics.
  cache_all : Client M → List M → Option (Client M)
  cache_all c ms = add_all c.cache ms >>= λ cache. some (record c { cache = cache })

  unfoldable pub send_metrics : Client M → List M → Net M → Option (Client M × Net M)
  unfolding cache_all
  send_metrics c [] net = some (c, net)
  send_metrics c (m ∷ ms) net =
      if not c.connected || not c.stream
      then (cache_all c (m ∷ ms) >>= λ c'. some (c', net))
      else (let (sent, net') = send (metric_batch (m ∷ ms)) net in
          if sent then some (c, net') else (cache_all c (m ∷ ms) >>= λ c'. some (c', net')))

  -- SendExecOutput, SendExecResult, SendHealthCheckResult, sendHeartbeat: one message, dropped when
  -- there is no stream.
  send_or_drop : Client M → Message M → Net M → Net M
  send_or_drop c msg net = if not c.connected || not c.stream then net else (send msg net).1

  unfoldable pub send_exec_output : Client M → String → String → List ℕ → Net M → Net M
  unfolding send_or_drop
  send_exec_output c task_id stream_name output net =
      send_or_drop c (exec_output task_id stream_name output) net

  unfoldable pub send_exec_result : Client M → String → Net M → Net M
  unfolding send_or_drop
  send_exec_result c task_id net = send_or_drop c (exec_result task_id) net

  unfoldable pub send_health_check_result : Client M → String → Net M → Net M
  unfolding send_or_drop
  send_health_check_result c request_id net = send_or_drop c (health_check_result request_id) net

  unfoldable pub send_heartbeat : Client M → Net M → Net M
  unfolding send_or_drop
  send_heartbeat c net = send_or_drop c heartbeat net

  -- The entries of a drained cache. A nil entry would be dereferenced when the batch is built, which
  -- panics.
  pub no_nil : List (Option M) → Option (List M)
  no_nil [] = some []
  no_nil (none ∷ ms) = none
  no_nil (some m ∷ ms) = no_nil ms >>= λ rest. some (m ∷ rest)

  -- The batches of `replayCache` from `metrics[i:]` on, in rounds of fuel: the metrics that were not
  -- sent.
  unfoldable pub replay_loop : ℕ → ℕ → List M → Net M → List M × Net M
  replay_loop zero size ms net = (ms, net)
  replay_loop (suc fuel) size [] net = ([], net)
  replay_loop (suc fuel) size (m ∷ ms) net =
      let (sent, net') = send (metric_batch (take size (m ∷ ms))) net in
      let rest = replay_loop fuel size (drop size (m ∷ ms)) net' in
      if sent then rest else (m ∷ ms, net')

  unfoldable pub replay_cache : Client M → Net M → Option (Client M × Net M)
  unfolding cache_all no_nil
  replay_cache c net = do
    (drained, cache) ← drain c.cache
    ms ← no_nil drained
    let c' = record c { cache = cache }
    let (rest, net') = replay_loop (length ms) batch_size ms net
    if not c.stream then some (c', net) else (cache_all c' rest >>= λ c''. some (c'', net'))

  -- The batches of `FlushAndStop`: before each one the context may be done, which `expired` tells for
  -- the rounds to come (past its end the context stays alive).
  unfoldable pub flush_loop : ℕ → ℕ → List Bool → List M → Net M → List M × Net M
  flush_loop zero size expired ms net = (ms, net)
  flush_loop (suc fuel) size expired [] net = ([], net)
  flush_loop (suc fuel) size (true ∷ expired) (m ∷ ms) net = (m ∷ ms, net)
  flush_loop (suc fuel) size (false ∷ expired) (m ∷ ms) net =
      let (sent, net') = send (metric_batch (take size (m ∷ ms))) net in
      let rest = flush_loop fuel size expired (drop size (m ∷ ms)) net' in
      if sent then rest else (m ∷ ms, net')
  flush_loop (suc fuel) size [] (m ∷ ms) net =
      let (sent, net') = send (metric_batch (take size (m ∷ ms))) net in
      let rest = flush_loop fuel size [] (drop size (m ∷ ms)) net' in
      if sent then rest else (m ∷ ms, net')

-- How `FlushAndStop` ends for the metrics that it could not send.
pub record Flushed (M : Type 0) : Type 0 where
  pub client : Client M
  pub net : Net M
  pub persisted : Option (List M)  -- handed to persistMetrics
  pub dropped : List M  -- logged as not persisted

module _ {M : Type 0} where
  -- c.closeConn()
  close_conn : Client M → Client M
  close_conn c = record c { stream = false; connected = false }

  -- `has_path` is persistPath != "".
  keep_rest : Bool → Client M → List M → Net M → Flushed M
  keep_rest has_path c [] net = record {
    client = close_conn c;
    net = net;
    persisted = none;
    dropped = [];
  }
  keep_rest true c (m ∷ ms) net = record {
    client = close_conn c;
    net = net;
    persisted = some (m ∷ ms);
    dropped = [];
  }
  keep_rest false c (m ∷ ms) net = record {
    client = close_conn c;
    net = net;
    persisted = none;
    dropped = m ∷ ms;
  }

  unfoldable pub flush_and_stop : Client M → List Bool → Bool → Net M → Option (Flushed M)
  unfolding close_conn keep_rest no_nil
  flush_and_stop c expired has_path net = do
    (drained, cache) ← drain c.cache
    ms ← no_nil drained
    let (rest, net') =
        (if c.stream then flush_loop (length ms) batch_size expired ms net else (ms, net))
    some (keep_rest has_path (record c { cache = cache }) rest net')
