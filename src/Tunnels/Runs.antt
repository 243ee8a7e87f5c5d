-- ===== src/Tunnels/Runs.antt =====
-- Runs of the gateway's tunnels.
use nodeagentx.Prelude.{
  ℕ, String, Bool, true, false, ◌||◌, List, [], ◌∷◌, any, str_eq, eq_iff, length, All, leb, ◌≡◌,
  refl, subst, Bool-cases, Option-cases, inl, inr, arith,
}
use nodeagentx.Prelude.Maps.{lookup, insert, lookup-insert}
use nodeagentx.Tunnels.{
  Tunnel, TunnelGateway, new_tunnel_gateway, close_tunnel, pool_add, pool_remove, drop_relay,
  RelayEnd, context_done, tunnel_done, send_failed, read_failed, end_of_stream, relay_close,
  TunnelEvent, incoming, relay_ends, platform_closes, relays_data, platform_sends, touch, reaps,
  stops, admit_tunnel, can_end, tunnel_step, tunnel_run,
}
use nodeagentx.Tunnels.Kept.{
  opens, closes, is_pooled, is_among, IsKeptBut, IsTold, send_close-ends, close_tunnel-IsTold,
  close_tunnel-IsKeptBut, remove-IsKeptBut, close_all-IsKeptBut, close_idle-IsKeptBut,
}

-- Every way for a relay to end but the end of the stream.
abbrev pub IsHeard : TunnelEvent → Type 0
IsHeard (relay_ends id end_of_stream) = ⊥
IsHeard _ = Unit

module _ (k : String) where
  abbrev IsSound : TunnelGateway → Type 0
  IsSound g = IsKeptBut k [] g × IsTold k g

  -- A close of any tunnel, and one after its removal from the pool.
  close_tunnel-IsSound : (id : String) (g : TunnelGateway) → IsSound g → IsSound (close_tunnel id g)
  close_tunnel-IsSound id g (kept, told) = (
    close_tunnel-IsKeptBut k id [] g told (λ h. ground (arith, kept h)),
    close_tunnel-IsTold k id g told,
  )

  remove_and_close :
      (id : String) (g : TunnelGateway) → IsSound g → IsSound (close_tunnel id (pool_remove id g))
  unfolding pool_remove
  remove_and_close id g (kept, told) = (
    close_tunnel-IsKeptBut k id [] (pool_remove id g) told (remove-IsKeptBut k id [] g kept),
    close_tunnel-IsTold k id (pool_remove id g) told,
  )

  close_tunnel-closed :
      (id : String) (g : TunnelGateway) → any (str_eq id) (close_tunnel id g).closed ≡ true
  unfolding close_tunnel
  close_tunnel-closed id g = elim (Bool-cases (any (str_eq id) g.closed)) [
    | inl again ↦ rw again again
    | inr first ↦
        rw (first, (send_close-ends k id g.close_sends (record g { closed = id ∷ g.closed })).3)
          (rw ((eq_iff id id).1 refl) refl)
  ]

  -- A closed tunnel may leave the pool.
  remove-closed :
      (id : String) (g : TunnelGateway)
      → any (str_eq id) g.closed ≡ true
      → IsSound g
      → IsSound (pool_remove id g)
  unfolding pool_remove
  remove-closed id g closed (kept, told) = (
    λ h. elim (Bool-cases (str_eq id k)) [
      | inl same ↦
          let heard =
            told (subst (λ j. any (str_eq j) g.closed ≡ true) ((eq_iff id k).0 same) closed) in
          ground (arith, heard)
      | inr other ↦ ground (arith, remove-IsKeptBut k id [] g kept h, other)
    ],
    told,
  )

  insert-IsSound :
      (id : String) (t : Tunnel) (g : TunnelGateway)
      → IsSound g
      → IsSound (record g { pool = insert id t g.pool })
  insert-IsSound id t g (kept, told) =
      (λ h. ground (arith, kept h, lookup-insert id k t g.pool), told)

  touch-IsSound : (id : String) (now : ℕ) (g : TunnelGateway) → IsSound g → IsSound (touch id now g)
  unfolding touch lookup
  touch-IsSound id now g sound = elim (Option-cases (lookup id g.pool)) [
    | inl absent ↦ rw (absent, touch) sound
    | inr (t, there) ↦
        rw (there, touch)
          (insert-IsSound id (record { last_activity = now; idle_timeout = t.idle_timeout }) g
            sound)
  ]

  rejected-IsSound :
      (id : String) (opened : Bool) (g : TunnelGateway)
      → IsSound g
      → IsSound (admit_tunnel id opened (false, g))
  unfolding admit_tunnel
  rejected-IsSound id opened g sound = close_tunnel-IsSound id g sound

  pooled-IsSound :
      (id : String) (opened : Bool) (t : Tunnel) (g : TunnelGateway)
      → IsSound g
      → IsSound (admit_tunnel id opened (true, record g { pool = insert id t g.pool }))
  unfolding admit_tunnel
  pooled-IsSound id true t g (kept, told) =
      (λ h. ground (arith, kept, h, lookup-insert id k t g.pool), told)
  pooled-IsSound id false t g sound =
      remove_and_close id (record g { pool = insert id t g.pool }) (insert-IsSound id t g sound)

  admit_tunnel-IsSound :
      (id : String) (opened : Bool) (t : Tunnel) (g : TunnelGateway)
      → IsSound g
      → IsSound (admit_tunnel id opened (pool_add id t g))
  unfolding pool_add
  admit_tunnel-IsSound id opened t g sound = elim (Bool-cases (leb g.max_tunnels (length g.pool))) [
    | inl full ↦ rw full (rejected-IsSound id opened g sound)
    | inr free ↦ rw free (pooled-IsSound id opened t g sound)
  ]

  closed_and_removed :
      (id : String) (g : TunnelGateway) (relays : List String)
      → IsSound g
      → IsSound (pool_remove id (record (close_tunnel id g) { relays = relays }))
  closed_and_removed id g relays sound =
      remove-closed id (record (close_tunnel id g) { relays = relays }) (close_tunnel-closed id g)
        (close_tunnel-IsSound id g sound)

  relay_ends-IsSound :
      (id : String) (how : RelayEnd) (g : TunnelGateway) (relays : List String)
      → IsHeard (relay_ends id how)
      → can_end how id g ≡ true
      → IsSound g
      → IsSound (pool_remove id (record (relay_close how id g) { relays = relays }))
  unfolding relay_close
  relay_ends-IsSound id context_done g relays h can sound = closed_and_removed id g relays sound
  relay_ends-IsSound id send_failed g relays h can sound = closed_and_removed id g relays sound
  relay_ends-IsSound id read_failed g relays h can sound = closed_and_removed id g relays sound
  relay_ends-IsSound id end_of_stream g relays h can sound = elim h [ ]
  relay_ends-IsSound id tunnel_done g relays h can sound =
      remove-closed id (record g { relays = relays }) (ground (arith, can)) sound

  tunnel_step-IsSound :
      (e : TunnelEvent) (g : TunnelGateway) → IsHeard e → IsSound g → IsSound (tunnel_step e g)
  unfolding tunnel_step
  tunnel_step-IsSound (incoming id now true opened) g h sound =
      admit_tunnel-IsSound id opened (record { last_activity = now; idle_timeout = g.idle_timeout })
        g sound
  tunnel_step-IsSound (incoming id now false opened) g h sound = sound
  tunnel_step-IsSound (relay_ends id how) g h sound = elim (Bool-cases (can_end how id g)) [
    | inl can ↦ rw can (relay_ends-IsSound id how g (drop_relay id g.relays) h can sound)
    | inr stays ↦ rw stays sound
  ]
  tunnel_step-IsSound (platform_closes id) g h sound = elim (Option-cases (lookup id g.pool)) [
    | inl absent ↦ rw (absent, tunnel_step) sound
    | inr (t, there) ↦ rw (there, tunnel_step) (remove_and_close id g sound)
  ]
  tunnel_step-IsSound (relays_data id now) g h sound =
      elim (Bool-cases (any (str_eq id) g.relays)) [
        | inl relayed ↦ rw relayed (touch-IsSound id now g sound)
        | inr gone ↦ rw gone sound
      ]
  tunnel_step-IsSound (platform_sends id now) g h sound =
      elim (Bool-cases (any (str_eq id) g.closed)) [
        | inl gone ↦ rw gone sound
        | inr live ↦ rw live (touch-IsSound id now g sound)
      ]
  tunnel_step-IsSound (reaps now) g h (kept, told) = close_idle-IsKeptBut k now g told kept
  tunnel_step-IsSound stops g h (kept, told) = close_all-IsKeptBut k g told kept

  tunnel_run-IsSound :
      (es : List TunnelEvent) (g : TunnelGateway)
      → All IsHeard es
      → IsSound g
      → IsSound (tunnel_run es g)
  unfolding tunnel_run
  tunnel_run-IsSound [] g h sound = sound
  tunnel_run-IsSound (e ∷ es) g (h, hs) sound =
      tunnel_run-IsSound es (tunnel_step e g) hs (tunnel_step-IsSound e g h sound)

  new-IsSound :
      (max_tunnels idle_timeout : ℕ) (close_sends : List Bool)
      → IsSound (new_tunnel_gateway max_tunnels idle_timeout close_sends)
  unfolding new_tunnel_gateway
  new-IsSound max_tunnels idle_timeout close_sends = (λ h. cc h, λ h. cc h)

  -- In a run from a new gateway in which no target ends its stream, each tunnel that the platform was
  -- told of is in the pool, or the platform has been sent that it was closed, or the gateway tried to
  -- send that and the send failed.
  pub tunnel_run-keeps :
      (max_tunnels idle_timeout : ℕ) (close_sends : List Bool) (es : List TunnelEvent)
      → All IsHeard es
      → let g = tunnel_run es (new_tunnel_gateway max_tunnels idle_timeout close_sends) in
        any (opens k) g.sent ≡ true
        → (is_pooled k g.pool || any (closes k) g.sent || is_among k g.unsent) ≡ true
  tunnel_run-keeps max_tunnels idle_timeout close_sends es heard h =
      let (kept, told) =
        tunnel_run-IsSound es (new_tunnel_gateway max_tunnels idle_timeout close_sends) heard
          (new-IsSound max_tunnels idle_timeout close_sends) in
      ground (arith, kept h)
