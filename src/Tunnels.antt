-- ===== src/Tunnels.antt =====
-- internal/gateway/gateway.go and tunnel/pool.go, tunnel/tunnel.go: connections that are tunnelled to
-- the platform. A step is what one goroutine does between two waits. The ids are the environment's, 64
-- random bits each; a tunnel stands in the pool under its id.
pub mod Kept
pub mod Runs
use nodeagentx.Prelude.{
  ℕ, ◌-◌, String, Bool, true, false, not, ◌&&◌, Option, none, some, List, [], ◌∷◌, any, leb, ltb,
  str_eq, length, if◌then◌else◌,
}
use nodeagentx.Prelude.Maps.{Map, lookup, insert, remove}

pub record Tunnel : Type 0 where
  pub last_activity : ℕ
  pub idle_timeout : ℕ

-- What the platform is sent.
pub data Message : Type 0 where
  tunnel_open tunnel_close tunnel_data : String → Message

-- `closed` are the ids of the tunnels whose Close has run; the message sent last is the first. A
-- message is sent when its Send returned nil. `close_sends` tells for the closes to come whether
-- SendTunnelClose succeeds (past its end it does); `unsent` are the ids for which it failed, an error
-- that Close discards.
pub record TunnelGateway : Type 0 where
  pub pool : Map Tunnel
  pub max_tunnels : ℕ
  pub idle_timeout : ℕ
  pub relays : List String
  pub closed : List String
  pub sent : List Message
  pub close_sends : List Bool
  pub unsent : List String

unfoldable pub new_tunnel_gateway : ℕ → ℕ → List Bool → TunnelGateway
new_tunnel_gateway max_tunnels idle_timeout close_sends = record {
  pool = [];
  max_tunnels = max_tunnels;
  idle_timeout = idle_timeout;
  relays = [];
  closed = [];
  sent = [];
  close_sends = close_sends;
  unsent = [];
}

-- SendTunnelClose, whose error Close discards.
unfoldable pub send_close : String → List Bool → TunnelGateway → TunnelGateway
send_close id [] g = record g { sent = tunnel_close id ∷ g.sent }
send_close id (true ∷ later) g = record g { sent = tunnel_close id ∷ g.sent; close_sends = later }
send_close id (false ∷ later) g = record g { unsent = id ∷ g.unsent; close_sends = later }

-- Tunnel.Close: only the first call does something.
unfoldable pub close_tunnel : String → TunnelGateway → TunnelGateway
unfolding send_close
close_tunnel id g =
    if any (str_eq id) g.closed
    then g
    else send_close id g.close_sends (record g { closed = id ∷ g.closed })

-- time.Since(t.lastActivity) > t.idleTimeout
abbrev pub is_idle : ℕ → Tunnel → Bool
is_idle now t = ltb t.idle_timeout (now - t.last_activity)

-- Pool.Add
unfoldable pub pool_add : String → Tunnel → TunnelGateway → Bool × TunnelGateway
pool_add id t g =
    if leb g.max_tunnels (length g.pool)
    then (false, g)
    else (true, record g { pool = insert id t g.pool })

-- Pool.Remove
unfoldable pub pool_remove : String → TunnelGateway → TunnelGateway
pool_remove id g = record g { pool = remove id g.pool }

-- The tunnels that CloseIdle takes out, and those it leaves.
unfoldable pub idle_ids : ℕ → Map Tunnel → List String
idle_ids now [] = []
idle_ids now ((id, t) ∷ pool) =
    let rest = idle_ids now pool in if is_idle now t then id ∷ rest else rest

unfoldable pub drop_ids : List String → Map Tunnel → Map Tunnel
drop_ids [] pool = pool
drop_ids (id ∷ ids) pool = drop_ids ids (remove id pool)

unfoldable pub close_tunnels : List String → TunnelGateway → TunnelGateway
close_tunnels [] g = g
close_tunnels (id ∷ ids) g = close_tunnels ids (close_tunnel id g)

unfoldable pub close_idle : ℕ → TunnelGateway → TunnelGateway
close_idle now g =
    let ids = idle_ids now g.pool in close_tunnels ids (record g { pool = drop_ids ids g.pool })

unfoldable pub all_ids : Map Tunnel → List String
all_ids [] = []
all_ids ((id, t) ∷ pool) = id ∷ all_ids pool

-- Pool.CloseAll
unfoldable pub close_all : TunnelGateway → TunnelGateway
close_all g = close_tunnels (all_ids g.pool) (record g { pool = [] })

unfoldable pub drop_relay : String → List String → List String
drop_relay id [] = []
drop_relay id (r ∷ relays) =
    let rest = drop_relay id relays in if str_eq id r then rest else r ∷ rest

-- t.lastActivity = time.Now()
unfoldable pub touch : String → ℕ → TunnelGateway → TunnelGateway
touch id now g = elim (lookup id g.pool) [
  | none ↦ g
  | some t ↦ record g {
    pool = insert id (record { last_activity = now; idle_timeout = t.idle_timeout }) g.pool;
  }
]

-- SendTunnelData
abbrev pub send_data : String → TunnelGateway → TunnelGateway
send_data id g = record g { sent = tunnel_data id ∷ g.sent }

-- How Relay ends: the context is done, the tunnel was closed, a message could not be sent, the read
-- failed, or the target ended the stream.
pub data RelayEnd : Type 0 where
  context_done tunnel_done send_failed read_failed end_of_stream : RelayEnd

unfoldable pub relay_close : RelayEnd → String → TunnelGateway → TunnelGateway
unfolding close_tunnel
relay_close tunnel_done id g = g
relay_close end_of_stream id g = g
relay_close _ id g = close_tunnel id g

pub data TunnelEvent : Type 0 where
  incoming : String → ℕ → Bool → Bool → TunnelEvent
  relay_ends : String → RelayEnd → TunnelEvent
  platform_closes : String → TunnelEvent
  relays_data : String → ℕ → TunnelEvent
  platform_sends : String → ℕ → TunnelEvent
  reaps : ℕ → TunnelEvent
  stops : TunnelEvent

-- handleIncoming after authentication, up to Relay, where `opens` says whether the platform was told.
unfoldable pub admit_tunnel : String → Bool → Bool × TunnelGateway → TunnelGateway
unfolding close_tunnel pool_remove
admit_tunnel id opens (false, g) = close_tunnel id g
admit_tunnel id true (true, g) = record g { relays = id ∷ g.relays; sent = tunnel_open id ∷ g.sent }
admit_tunnel id false (true, g) = close_tunnel id (pool_remove id g)

-- A relay that ends because the tunnel was closed does so only then.
abbrev pub can_end : RelayEnd → String → TunnelGateway → Bool
can_end tunnel_done id g = any (str_eq id) g.relays && any (str_eq id) g.closed
can_end _ id g = any (str_eq id) g.relays

unfoldable pub tunnel_step : TunnelEvent → TunnelGateway → TunnelGateway
unfolding admit_tunnel pool_add relay_close close_idle close_all
tunnel_step (incoming id now authentic opens) g =
    if authentic
    then admit_tunnel id opens
        (pool_add id (record { last_activity = now; idle_timeout = g.idle_timeout }) g)
    else g
tunnel_step (relay_ends id how) g =
    if can_end how id g
    then pool_remove id (record (relay_close how id g) { relays = drop_relay id g.relays })
    else g
tunnel_step (platform_closes id) g = elim (lookup id g.pool) [
  | none ↦ g
  | some t ↦ close_tunnel id (pool_remove id g)
]
tunnel_step (relays_data id now) g =
    if any (str_eq id) g.relays then send_data id (touch id now g) else g
tunnel_step (platform_sends id now) g = if any (str_eq id) g.closed then g else touch id now g
tunnel_step (reaps now) g = close_idle now g
tunnel_step stops g = close_all g

unfoldable pub tunnel_run : List TunnelEvent → TunnelGateway → TunnelGateway
unfolding tunnel_step
tunnel_run [] g = g
tunnel_run (e ∷ es) g = tunnel_run es (tunnel_step e g)
