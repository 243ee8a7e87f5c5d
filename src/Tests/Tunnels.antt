-- ===== src/Tests/Tunnels.antt =====
-- Three connections to a gateway with room for two, of which one is idle for too long.
use nodeagentx.Prelude.{true, false, List, [], ◌∷◌, ◌||◌, any, ◌≡◌, refl}
use nodeagentx.Prelude.Maps.{lookup, insert, remove}
use nodeagentx.Tunnels.{
  TunnelEvent, incoming, relay_ends, relays_data, touch, reaps, read_failed, end_of_stream,
  new_tunnel_gateway, tunnel_run, tunnel_step, admit_tunnel, pool_add, pool_remove, close_tunnel,
  send_close, relay_close, close_idle, close_tunnels, idle_ids, drop_ids, drop_relay,
}
use nodeagentx.Tunnels.Kept.{opens, closes, is_pooled, is_among}
use nodeagentx.Tunnels.Runs.{tunnel_run-keeps}

abbrev morning : List TunnelEvent
morning =
    incoming "a" 10 true true
    ∷ incoming "b" 20 true true
    ∷ incoming "c" 25 true true
    ∷ relays_data "b" 40
    ∷ reaps 75
    ∷ relay_ends "b" read_failed
    ∷ []

tunnel_run-keeps_example :
    let g = tunnel_run morning (new_tunnel_gateway 2 60 (true ∷ false ∷ [])) in
    (is_pooled "a" g.pool || any (closes "a") g.sent || is_among "a" g.unsent) ≡ true
unfolding new_tunnel_gateway tunnel_run tunnel_step admit_tunnel pool_add pool_remove close_tunnel
    send_close relay_close close_idle touch close_tunnels idle_ids drop_ids drop_relay lookup insert
    remove
tunnel_run-keeps_example =
    tunnel_run-keeps "a" 2 60 (true ∷ false ∷ []) morning (tt, (tt, (tt, (tt, (tt, (tt, tt))))))
      refl

-- The connection to the platform is down when the idle a is closed: it is not told.
close_unsent :
    let g = tunnel_run morning (new_tunnel_gateway 2 60 (true ∷ false ∷ [])) in
    any (closes "a") g.sent ≡ false
unfolding new_tunnel_gateway tunnel_run tunnel_step admit_tunnel pool_add pool_remove close_tunnel
    send_close relay_close close_idle touch close_tunnels idle_ids drop_ids drop_relay lookup insert
    remove
close_unsent = refl

-- The platform is not told of a stream that ends.
end_of_stream_unheard :
    let g =
      tunnel_run
        (incoming "a" 10 true true ∷ relay_ends "a" end_of_stream ∷ [])
        (new_tunnel_gateway 2 60 []) in
    (any (opens "a") g.sent ≡ true)
    × (is_pooled "a" g.pool ≡ false)
    × (any (closes "a") g.sent ≡ false)
unfolding new_tunnel_gateway tunnel_run tunnel_step admit_tunnel pool_add pool_remove close_tunnel
    send_close relay_close drop_relay lookup insert remove
end_of_stream_unheard = (refl, refl, refl)
