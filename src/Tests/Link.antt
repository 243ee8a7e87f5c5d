-- ===== src/Tests/Link.antt =====
-- Runs of the connection loop.
use nodeagentx.Prelude.{◌*◌, ◌≡◌, [], ◌∷◌, List, true, false, arith}
use nodeagentx.Grpc.Link.{
  no_connection, no_stream, no_registration, up, waiting, Event, attempt_ends, timer_fires,
  recv_fails, context_done, second, connect_loop, new_loop, stop_loop,
}
use nodeagentx.Grpc.Link.Backoff.{phase-connect_loop}
use nodeagentx.Grpc.Link.Closed.{count, stop_loop_closes}
use nodeagentx.Grpc.Link.Lost.{stop_loop_loses_first}

abbrev failures : List Event
failures =
    timer_fires (no_stream 4) ∷ timer_fires no_connection ∷ timer_fires (no_registration 5) ∷ []

-- 1 s doubled three times is 8 s, above the maximum of 5 s.
phase-connect_loop_example :
    (connect_loop
      (5 * second)
      failures
      (record { link = new_loop.link; phase = waiting second })).phase
    ≡ waiting (5 * second)
phase-connect_loop_example =
    phase-connect_loop (5 * second) second failures new_loop.link (omega arith) (omega arith)
      (tt, (tt, (tt, tt)))

abbrev round : List Event
round =
    attempt_ends no_connection
    ∷ timer_fires (no_stream 4)
    ∷ timer_fires (up 6)
    ∷ recv_fails false
    ∷ attempt_ends (no_registration 7)
    ∷ timer_fires (up 8)
    ∷ context_done
    ∷ []

stop_loop_closes_example :
    let l = (stop_loop (connect_loop second round new_loop)).link in
    count 8 l.opened ≡ count 8 l.closed
stop_loop_closes_example =
    stop_loop_closes second round 8 (tt, (tt, (tt, (tt, (tt, (tt, (tt, tt)))))))

stop_loop_loses_first_example :
    let s =
      connect_loop second
        (attempt_ends (up 1) ∷ timer_fires (up 2) ∷ recv_fails true ∷ [])
        new_loop in
    let l = (stop_loop s).link in (count 1 l.opened ≡ 1) × (count 1 l.closed ≡ 0)
stop_loop_loses_first_example =
    stop_loop_loses_first second 1 2 (recv_fails true ∷ []) (omega arith) (tt, tt)
