-- ===== src/Grpc/Link.antt =====
-- internal/grpcclient/client.go: the connection to the platform, and the loop that keeps it up. The
-- loop is a machine that moves by events: how a dial ends, that a timer fires, what Recv answers, that
-- the context is done. A connection is known by a number, times are nanoseconds. The callback for state
-- changes is set; the replay of the cache after a connection is in Client.
pub mod Backoff
pub mod Closed
pub mod Lost
use nodeagentx.Prelude.{
  ℕ, ◌*◌, ◌%◌, Bool, true, false, ◌&&◌, Option, none, some, List, [], ◌∷◌, ltb, if◌then◌else◌,
}

-- How `connect` goes: no TLS credentials or no client, or a connection of which the stream or the
-- registration fails, or one that is up.
pub data Dial : Type 0 where
  no_connection : Dial
  no_stream no_registration up : ℕ → Dial

pub record Link : Type 0 where
  pub conn : Option ℕ
  pub stream : Bool  -- c.stream != nil
  pub connected : Bool
  pub opened : List ℕ  -- every connection that was made, newest first
  pub closed : List ℕ
  pub told : List Bool  -- the calls of onStateChange, newest first

abbrev pub close : ℕ → Link → Link
close k l = record l { closed = k ∷ l.closed }

abbrev pub open_conn : ℕ → Link → Link
open_conn k l = record l { opened = k ∷ l.opened }

unfoldable pub connect : Dial → Link → Link × Bool
connect no_connection l = (l, false)
connect (no_stream k) l = (close k (open_conn k l), false)
connect (no_registration k) l = (close k (open_conn k l), false)
connect (up k) l = (
  record (open_conn k l) { conn = some k; stream = true; connected = true; told = true ∷ l.told },
  true,
)

abbrev pub close_held : Option ℕ → Link → Link
close_held none l = l
close_held (some k) l = record (close k l) { conn = none }

unfoldable pub close_conn_of : Link → Link
close_conn_of l = record (close_held l.conn l) { stream = false; connected = false }

-- v != wasConnected
abbrev pub changes : Bool → Bool → Bool
changes true true = false
changes false false = false
changes _ _ = true

unfoldable pub set_connected : Bool → Link → Link
set_connected v l =
    let l' = record l { connected = v } in
    if changes v l.connected then record l' { told = v ∷ l.told } else l'

-- Where the loop stands: before the first attempt, waiting for a timer, in messageLoop, or returned.
pub data Phase : Type 0 where
  attempting : Phase
  waiting : ℕ → Phase
  receiving : Phase
  returned : Phase

pub record ConnectLoop : Type 0 where
  pub link : Link
  pub phase : Phase

pub data Event : Type 0 where
  attempt_ends : Dial → Event
  timer_fires : Dial → Event  -- the timer, and how the attempt after it ends
  message_handled : Event
  recv_fails : Bool → Event  -- whether the context is done then
  context_done : Event

abbrev pub second : ℕ
second = 1_000_000_000

-- backoff *= 2 on a time.Duration, and the maximum when it is then greater. Durations are the 64-bit
-- patterns of int64, which has the sign in the bit of 2 ^ 63: a wrapped one that is negative is not
-- greater than the maximum.
unfoldable pub next_backoff : ℕ → ℕ → ℕ
next_backoff max_backoff backoff =
    let twice = backoff * 2 % 18446744073709551616 in
    if ltb max_backoff twice && ltb twice 9223372036854775808 then max_backoff else twice

abbrev pub retry : ℕ → ℕ → Link × Bool → ConnectLoop
retry max_backoff backoff (l, true) = record { link = l; phase = receiving }
retry max_backoff backoff (l, false) = record {
  link = l;
  phase = waiting (next_backoff max_backoff backoff);
}

-- An event that the phase does not wait for does nothing. Recv on a missing stream does not come up,
-- since the loop receives only after a connection.
unfoldable pub connect_loop_in : ℕ → Phase → Event → Link → ConnectLoop
connect_loop_in max_backoff attempting (attempt_ends d) l = record {
  link = (connect d l).0;
  phase = waiting second;
}
connect_loop_in max_backoff (waiting b) (timer_fires d) l = retry max_backoff b (connect d l)
connect_loop_in max_backoff (waiting b) context_done l = record { link = l; phase = returned }
connect_loop_in max_backoff receiving context_done l = record {
  link = set_connected false l;
  phase = returned;
}
connect_loop_in max_backoff receiving (recv_fails done) l = record {
  link = close_conn_of (set_connected false l);
  phase = if done then returned else attempting;
}
connect_loop_in max_backoff phase event l = record { link = l; phase = phase }

unfoldable pub connect_loop_step : ℕ → Event → ConnectLoop → ConnectLoop
connect_loop_step max_backoff e s = connect_loop_in max_backoff s.phase e s.link

-- Events, oldest first.
unfoldable pub connect_loop : ℕ → List Event → ConnectLoop → ConnectLoop
connect_loop max_backoff [] s = s
connect_loop max_backoff (e ∷ es) s =
    connect_loop max_backoff es (connect_loop_step max_backoff e s)

-- NewClient, before Start.
unfoldable pub new_loop : ConnectLoop
new_loop = record {
  link = record {
    conn = none;
    stream = false;
    connected = false;
    opened = [];
    closed = [];
    told = [];
  };
  phase = attempting;
}

-- Stop: the loop has returned when the connection is closed.
unfoldable pub stop_loop : ConnectLoop → ConnectLoop
stop_loop s = record { link = close_conn_of s.link; phase = returned }
