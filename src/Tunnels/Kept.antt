-- ===== src/Tunnels/Kept.antt =====
-- What becomes of a tunnel that the platform was told of.
use nodeagentx.Prelude.{
  ℕ, String, Bool, true, false, ◌||◌, none, some, List, [], ◌∷◌, any, str_eq, eq_iff, ◌≡◌, refl,
  subst, Bool-cases, inl, inr, arith,
}
use nodeagentx.Prelude.Maps.{Map, lookup, remove, lookup-remove}
use nodeagentx.Tunnels.{
  Tunnel, Message, tunnel_open, tunnel_close, tunnel_data, TunnelGateway, send_close, close_tunnel,
  pool_remove, idle_ids, drop_ids, close_tunnels, close_idle, all_ids, close_all,
}

abbrev pub opens : String → Message → Bool
opens k (tunnel_open id) = str_eq id k
opens k (tunnel_close id) = false
opens k (tunnel_data id) = false

abbrev pub closes : String → Message → Bool
closes k (tunnel_close id) = str_eq id k
closes k (tunnel_open id) = false
closes k (tunnel_data id) = false

abbrev pub is_pooled : String → Map Tunnel → Bool
is_pooled k pool = elim (lookup k pool) [ none ↦ Bool.false | some t ↦ Bool.true ]

abbrev pub is_among : String → List String → Bool
is_among k ids = any (λ id. str_eq id k) ids

-- The platform was told that k ended, or the message failed.
abbrev pub is_ended : String → TunnelGateway → Bool
is_ended k g = any (closes k) g.sent || is_among k g.unsent

-- The platform was told of k: then k is in the pool, or it was told of its end or that message
-- failed, or it is one of some that are about to be closed.
abbrev pub IsKeptBut : String → List String → TunnelGateway → Type 0
IsKeptBut k ids g =
    any (opens k) g.sent ≡ true → (is_pooled k g.pool || is_ended k g || is_among k ids) ≡ true

-- Each Close told the platform, or failed to.
abbrev pub IsTold : String → TunnelGateway → Type 0
IsTold k g = any (str_eq k) g.closed ≡ true → is_ended k g ≡ true

module _ (k : String) where
  -- What SendTunnelClose makes of the messages.
  pub send_close-ends :
      (id : String) (outcomes : List Bool) (g : TunnelGateway)
      → (is_ended k (send_close id outcomes g) ≡ (str_eq id k || is_ended k g))
        × (any (opens k) (send_close id outcomes g).sent ≡ any (opens k) g.sent)
        × ((send_close id outcomes g).pool ≡ g.pool)
        × ((send_close id outcomes g).closed ≡ g.closed)
  unfolding send_close
  send_close-ends id [] g = (ground arith, refl, refl, refl)
  send_close-ends id (true ∷ later) g = (ground arith, refl, refl, refl)
  send_close-ends id (false ∷ later) g = (ground arith, refl, refl, refl)

  pub close_tunnel-IsTold :
      (id : String) (g : TunnelGateway) → IsTold k g → IsTold k (close_tunnel id g)
  unfolding close_tunnel
  close_tunnel-IsTold id g told = elim (Bool-cases (any (str_eq id) g.closed)) [
    | inl again ↦ rw again told
    | inr first ↦
        let (ended, opened, pool, closed) =
          send_close-ends id g.close_sends (record g { closed = id ∷ g.closed }) in
        rw first (λ h. ground (arith, rw closed at h, ended, told, eq_iff id k, eq_iff k id))
  ]

  pub close_tunnel-IsKeptBut :
      (id : String) (ids : List String) (g : TunnelGateway)
      → IsTold k g
      → IsKeptBut k (id ∷ ids) g
      → IsKeptBut k ids (close_tunnel id g)
  unfolding close_tunnel
  close_tunnel-IsKeptBut id ids g told kept = elim (Bool-cases (any (str_eq id) g.closed)) [
    | inl again ↦ rw again (λ h. elim (Bool-cases (str_eq id k)) [
      | inl same ↦
          let closed =
            told (subst (λ j. any (str_eq j) g.closed ≡ true) ((eq_iff id k).0 same) again) in
          ground (arith, closed)
      | inr other ↦ ground (arith, kept h, other)
    ])
    | inr first ↦
        let (ended, opened, pool, closed) =
          send_close-ends id g.close_sends (record g { closed = id ∷ g.closed }) in
        rw first (λ h. rw pool (ground (arith, kept (rw opened at h), ended)))
  ]

  pub remove-IsKeptBut :
      (id : String) (ids : List String) (g : TunnelGateway)
      → IsKeptBut k ids g
      → IsKeptBut k (id ∷ ids) (pool_remove id g)
  unfolding pool_remove
  remove-IsKeptBut id ids g kept h = ground (arith, kept h, lookup-remove id k g.pool)

  close_tunnels-IsKeptBut :
      (ids : List String) (g : TunnelGateway)
      → IsTold k g
      → IsKeptBut k ids g
      → IsKeptBut k [] (close_tunnels ids g) × IsTold k (close_tunnels ids g)
  unfolding close_tunnels
  close_tunnels-IsKeptBut [] g told kept = (kept, told)
  close_tunnels-IsKeptBut (id ∷ ids) g told kept =
      close_tunnels-IsKeptBut ids (close_tunnel id g) (close_tunnel-IsTold id g told)
        (close_tunnel-IsKeptBut id ids g told kept)

  drop_ids-is_pooled :
      (ids : List String) (pool : Map Tunnel)
      → is_pooled k pool ≡ true
      → (is_pooled k (drop_ids ids pool) || is_among k ids) ≡ true
  unfolding drop_ids
  drop_ids-is_pooled [] pool h = ground (arith, h)
  drop_ids-is_pooled (id ∷ ids) pool h = elim (Bool-cases (str_eq id k)) [
    | inl same ↦ ground (arith, same)
    | inr other ↦
        let still : is_pooled k (remove id pool) ≡ true =
          ground (arith, h, other, lookup-remove id k pool) in
        ground (arith, drop_ids-is_pooled ids (remove id pool) still)
  ]

  all_ids-is_among :
      (pool : Map Tunnel) → is_pooled k pool ≡ true → is_among k (all_ids pool) ≡ true
  unfolding all_ids lookup
  all_ids-is_among [] h = h
  all_ids-is_among ((id, t) ∷ pool) h = ground (arith, h, all_ids-is_among pool)

  pub close_all-IsKeptBut :
      (g : TunnelGateway)
      → IsTold k g
      → IsKeptBut k [] g
      → IsKeptBut k [] (close_all g) × IsTold k (close_all g)
  unfolding close_all lookup
  close_all-IsKeptBut g told kept =
      close_tunnels-IsKeptBut (all_ids g.pool) (record g { pool = [] }) told
        (λ h. ground (arith, kept h, all_ids-is_among g.pool))

  pub close_idle-IsKeptBut :
      (now : ℕ) (g : TunnelGateway)
      → IsTold k g
      → IsKeptBut k [] g
      → IsKeptBut k [] (close_idle now g) × IsTold k (close_idle now g)
  unfolding close_idle
  close_idle-IsKeptBut now g told kept =
      close_tunnels-IsKeptBut (idle_ids now g.pool)
        (record g { pool = drop_ids (idle_ids now g.pool) g.pool }) told
        (λ h. ground (arith, kept h, drop_ids-is_pooled (idle_ids now g.pool) g.pool))
