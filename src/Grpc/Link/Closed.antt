-- ===== src/Grpc/Link/Closed.antt =====
-- That every connection is closed in the end when the first attempts fail.
use nodeagentx.Prelude.{
  ℕ, ◌+◌, ◌≡◌, refl, false, Option, none, some, List, [], ◌∷◌, All, ◌==◌, if◌then◌else◌, arith,
}
use nodeagentx.Grpc.Link.{
  no_connection, no_stream, no_registration, up, Link, Phase, attempting, waiting, receiving,
  returned, ConnectLoop, Event, attempt_ends, timer_fires, message_handled, recv_fails,
  context_done, connect, close_conn_of, set_connected, connect_loop, connect_loop_step,
  connect_loop_in, new_loop, stop_loop, close, open_conn,
}

abbrev pub count : ℕ → List ℕ → ℕ
count k [] = 0
count k (j ∷ js) = (if j == k then 1 else 0) + count k js

abbrev pub holds : ℕ → Option ℕ → ℕ
holds k none = 0
holds k (some j) = if j == k then 1 else 0

-- The first attempt of a round, before any timer, does not connect.
abbrev pub FailsFirst : Event → Type 0
FailsFirst (attempt_ends (up k)) = ⊥
FailsFirst _ = Unit

-- Between two connections none is held.
abbrev HeldIn : Phase → Option ℕ → Type 0
HeldIn attempting conn = conn ≡ none
HeldIn (waiting b) conn = conn ≡ none
HeldIn _ conn = Unit

record Inv (s : ConnectLoop) : Type 0 where
  accounted : (k : ℕ) → count k s.link.opened ≡ count k s.link.closed + holds k s.link.conn
  idle : HeldIn s.phase s.link.conn

-- The accounts balance.
abbrev Accounts : Link → Type 0
Accounts l = (k : ℕ) → count k l.opened ≡ count k l.closed + holds k l.conn

closed_at_once-Inv :
    (k : ℕ) (l : Link) (p : Phase)
    → Accounts l
    → HeldIn p l.conn
    → Inv (record { link = close k (open_conn k l); phase = p })
closed_at_once-Inv k l p a h = record { accounted = λ j. ground (arith, a j); idle = h }

set_connected-Accounts : (l : Link) → Accounts l → Accounts (set_connected false l)
unfolding set_connected
set_connected-Accounts l a k = ground (arith, a k)

close_conn_of-none : (l : Link) → (close_conn_of l).conn ≡ none
unfolding close_conn_of
close_conn_of-none l = ground arith

close_conn_of-Accounts : (l : Link) → Accounts l → Accounts (close_conn_of l)
unfolding close_conn_of
close_conn_of-Accounts l a k = ground (arith, a k)

HeldIn-none : (p : Phase) (conn : Option ℕ) → conn ≡ none → HeldIn p conn
HeldIn-none attempting conn e = e
HeldIn-none (waiting b) conn e = e
HeldIn-none receiving conn e = tt
HeldIn-none returned conn e = tt

connect_loop_in-Inv :
    (m : ℕ) (p : Phase) (e : Event) (l : Link)
    → FailsFirst e
    → Inv (record { link = l; phase = p })
    → Inv (connect_loop_in m p e l)
unfolding connect_loop_in connect
connect_loop_in-Inv m attempting (timer_fires d) l f v = v
connect_loop_in-Inv m attempting message_handled l f v = v
connect_loop_in-Inv m attempting (recv_fails done) l f v = v
connect_loop_in-Inv m attempting context_done l f v = v
connect_loop_in-Inv m (waiting b) (attempt_ends d) l f v = v
connect_loop_in-Inv m (waiting b) message_handled l f v = v
connect_loop_in-Inv m (waiting b) (recv_fails done) l f v = v
connect_loop_in-Inv m receiving (attempt_ends d) l f v = v
connect_loop_in-Inv m receiving (timer_fires d) l f v = v
connect_loop_in-Inv m receiving message_handled l f v = v
connect_loop_in-Inv m returned (attempt_ends d) l f v = v
connect_loop_in-Inv m returned (timer_fires d) l f v = v
connect_loop_in-Inv m returned message_handled l f v = v
connect_loop_in-Inv m returned (recv_fails done) l f v = v
connect_loop_in-Inv m returned context_done l f v = v
connect_loop_in-Inv m attempting (attempt_ends no_connection) l f v = record {
  accounted = v.accounted;
  idle = v.idle;
}
connect_loop_in-Inv m attempting (attempt_ends (no_stream k)) l f v =
    closed_at_once-Inv k l _ v.accounted v.idle
connect_loop_in-Inv m attempting (attempt_ends (no_registration k)) l f v =
    closed_at_once-Inv k l _ v.accounted v.idle
connect_loop_in-Inv m (waiting b) (timer_fires no_connection) l f v = record {
  accounted = v.accounted;
  idle = v.idle;
}
connect_loop_in-Inv m (waiting b) (timer_fires (no_stream k)) l f v =
    closed_at_once-Inv k l _ v.accounted v.idle
connect_loop_in-Inv m (waiting b) (timer_fires (no_registration k)) l f v =
    closed_at_once-Inv k l _ v.accounted v.idle
connect_loop_in-Inv m attempting (attempt_ends (up k)) l f v = absurd f
connect_loop_in-Inv m (waiting b) (timer_fires (up k)) l f v = record {
  accounted = λ j. ground (arith, v.accounted j, v.idle);
  idle = tt;
}
connect_loop_in-Inv m (waiting b) context_done l f v = record { accounted = v.accounted; idle = tt }
connect_loop_in-Inv m receiving context_done l f v = record {
  accounted = set_connected-Accounts l v.accounted;
  idle = tt;
}
connect_loop_in-Inv m receiving (recv_fails done) l f v =
    let l' = set_connected false l in
    record {
      accounted = close_conn_of-Accounts l' (set_connected-Accounts l v.accounted);
      idle = HeldIn-none _ (close_conn_of l').conn (close_conn_of-none l');
    }

connect_loop-Inv :
    (m : ℕ) (es : List Event) (s : ConnectLoop)
    → All FailsFirst es
    → Inv s
    → Inv (connect_loop m es s)
unfolding connect_loop connect_loop_step
connect_loop-Inv m [] s a v = v
connect_loop-Inv m (e ∷ es) s (f, a) v =
    connect_loop-Inv m es (connect_loop_step m e s) a
      (connect_loop_in-Inv m s.phase e s.link f (record { accounted = v.accounted; idle = v.idle }))

new_loop-Inv : Inv new_loop
unfolding new_loop
new_loop-Inv = record { accounted = λ k. refl; idle = refl }

-- When the first attempt of every round fails, and the loop connects after a timer only, each
-- connection that was made is closed as often as it was made, once the client is stopped.
pub stop_loop_closes :
    (m : ℕ) (es : List Event) (k : ℕ)
    → All FailsFirst es
    → let l = (stop_loop (connect_loop m es new_loop)).link in count k l.opened ≡ count k l.closed
unfolding stop_loop
stop_loop_closes m es k a =
    let l = (connect_loop m es new_loop).link in
    let balanced =
      close_conn_of-Accounts l (connect_loop-Inv m es new_loop a new_loop-Inv).accounted k in
    ground (arith, balanced, close_conn_of-none l)
