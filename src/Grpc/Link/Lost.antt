-- ===== src/Grpc/Link/Lost.antt =====
-- What becomes of a connection when the first attempt of a round succeeds.
use nodeagentx.Prelude.{ℕ, ◌≡◌, ◌≢◌, refl, Bool, true, false, List, [], ◌∷◌, All, arith, subst, sym}
use nodeagentx.Grpc.Link.{
  Dial, no_connection, no_stream, no_registration, up, Link, Phase, attempting, waiting, receiving,
  returned, ConnectLoop, Event, attempt_ends, timer_fires, message_handled, recv_fails,
  context_done, connect, close_conn_of, set_connected, connect_loop, connect_loop_step,
  connect_loop_in, new_loop, stop_loop, retry,
}
use nodeagentx.Grpc.Link.Closed.{count, holds}

-- An attempt makes no connection with this number.
abbrev MakesOther : ℕ → Dial → Type 0
MakesOther k no_connection = Unit
MakesOther k (no_stream j) = j ≢ k
MakesOther k (no_registration j) = j ≢ k
MakesOther k (up j) = j ≢ k

abbrev pub Avoids : ℕ → Event → Type 0
Avoids k (attempt_ends d) = MakesOther k d
Avoids k (timer_fires d) = MakesOther k d
Avoids k _ = Unit

-- The connection is neither held nor closed.
abbrev IsLost : ℕ → Link → Type 0
IsLost k l = (holds k l.conn ≡ 0) × (count k l.closed ≡ 0) × (count k l.opened ≡ 1)

connect-IsLost :
    (k : ℕ) (d : Dial) (l : Link) → MakesOther k d → IsLost k l → IsLost k (connect d l).0
unfolding connect
connect-IsLost k no_connection l o h = h
connect-IsLost k (no_stream j) l o h = ground arith
connect-IsLost k (no_registration j) l o h = ground arith
connect-IsLost k (up j) l o h = ground arith

set_connected-IsLost : (k : ℕ) (l : Link) → IsLost k l → IsLost k (set_connected false l)
unfolding set_connected
set_connected-IsLost k l h = ground arith

close_conn_of-IsLost : (k : ℕ) (l : Link) → IsLost k l → IsLost k (close_conn_of l)
unfolding close_conn_of
close_conn_of-IsLost k l h = ground arith

retry-link : (m b : ℕ) (r : Link × Bool) → (retry m b r).link ≡ r.0
retry-link m b (l, true) = refl
retry-link m b (l, false) = refl

connect_loop_in-IsLost :
    (m k : ℕ) (p : Phase) (e : Event) (l : Link)
    → Avoids k e
    → IsLost k l
    → IsLost k (connect_loop_in m p e l).link
unfolding connect_loop_in
connect_loop_in-IsLost m k attempting (attempt_ends d) l o h = connect-IsLost k d l o h
connect_loop_in-IsLost m k (waiting b) (timer_fires d) l o h =
    subst (IsLost k) (sym (retry-link m b (connect d l))) (connect-IsLost k d l o h)
connect_loop_in-IsLost m k receiving context_done l o h = set_connected-IsLost k l h
connect_loop_in-IsLost m k receiving (recv_fails done) l o h =
    close_conn_of-IsLost k _ (set_connected-IsLost k l h)
connect_loop_in-IsLost m k attempting (timer_fires d) l o h = h
connect_loop_in-IsLost m k attempting message_handled l o h = h
connect_loop_in-IsLost m k attempting (recv_fails done) l o h = h
connect_loop_in-IsLost m k attempting context_done l o h = h
connect_loop_in-IsLost m k (waiting b) (attempt_ends d) l o h = h
connect_loop_in-IsLost m k (waiting b) message_handled l o h = h
connect_loop_in-IsLost m k (waiting b) (recv_fails done) l o h = h
connect_loop_in-IsLost m k (waiting b) context_done l o h = h
connect_loop_in-IsLost m k receiving (attempt_ends d) l o h = h
connect_loop_in-IsLost m k receiving (timer_fires d) l o h = h
connect_loop_in-IsLost m k receiving message_handled l o h = h
connect_loop_in-IsLost m k returned e l o h = h

connect_loop-IsLost :
    (m k : ℕ) (es : List Event) (s : ConnectLoop)
    → All (Avoids k) es
    → IsLost k s.link
    → IsLost k (connect_loop m es s).link
unfolding connect_loop connect_loop_step
connect_loop-IsLost m k [] s a h = h
connect_loop-IsLost m k (e ∷ es) s (o, a) h =
    connect_loop-IsLost m k es (connect_loop_step m e s) a
      (connect_loop_in-IsLost m k s.phase e s.link o h)

-- When the first attempt and the one after its timer both connect, the first connection is made once
-- and never closed, whatever happens later with other connections, not even when the client is stopped.
pub stop_loop_loses_first :
    (m k j : ℕ) (es : List Event)
    → j ≢ k
    → All (Avoids k) es
    → let s = connect_loop m (attempt_ends (up k) ∷ timer_fires (up j) ∷ es) new_loop in
      let l = (stop_loop s).link in (count k l.opened ≡ 1) × (count k l.closed ≡ 0)
unfolding connect_loop connect_loop_step connect_loop_in connect new_loop stop_loop
stop_loop_loses_first m k j es o a =
    let twice = connect_loop m (attempt_ends (up k) ∷ timer_fires (up j) ∷ []) new_loop in
    let lost : IsLost k twice.link = ground arith in
    let l = (connect_loop m es twice).link in
    let h = close_conn_of-IsLost k l (connect_loop-IsLost m k es twice a lost) in (h.2, h.1)
