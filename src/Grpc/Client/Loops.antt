-- ===== src/Grpc/Client/Loops.antt =====
-- The loops that send a cache in batches: what they send, what they leave, and that they get through.
use nodeagentx.Prelude.{
  ℕ, zero, suc, ◌≤◌, ◌<◌, ◌≡◌, ◌⊎◌, inl, inr, refl, Bool, true, false, some, List, [], ◌∷◌, ◌++◌,
  if◌then◌else◌, take, drop, length, take-append-drop, length-drop, append_assoc, append-nil, arith,
  ap, sym, ◌∙◌, subst, All, All-append, map, length-take,
}
use nodeagentx.Grpc.Client.{
  Message, metric_batch, Net, send_with, send, no_nil, replay_loop, flush_loop,
}

-- How the next send will end.
abbrev pub next_outcome : List Bool → Bool
next_outcome [] = true
next_outcome (o ∷ os) = o

module _ {M : Type 0} where
  -- The metrics in what the stream has accepted, in order.
  abbrev pub metrics_of : Message M → List M
  metrics_of (metric_batch ms) = ms
  metrics_of _ = []

  abbrev pub metrics_in : List (Message M) → List M
  metrics_in [] = []
  metrics_in (m ∷ ms) = metrics_of m ++ metrics_in ms

  metrics_in-append :
      (xs ys : List (Message M)) → metrics_in (xs ++ ys) ≡ metrics_in xs ++ metrics_in ys
  metrics_in-append [] ys = refl
  metrics_in-append (x ∷ xs) ys =
      rw (metrics_in-append xs ys)
        (sym (append_assoc (metrics_of x) (metrics_in xs) (metrics_in ys)))

  send_with_cases :
      (os : List Bool) (msg : Message M) (net : Net M)
      → ((next_outcome os ≡ true)
          × ((send_with os msg net).0 ≡ true)
          × ((send_with os msg net).1.accepted ≡ net.accepted ++ msg ∷ []))
        ⊎ ((next_outcome os ≡ false)
            × ((send_with os msg net).0 ≡ false)
            × ((send_with os msg net).1.accepted ≡ net.accepted))
  unfolding send_with
  send_with_cases [] msg net = inl (refl, refl, refl)
  send_with_cases (true ∷ os) msg net = inl (refl, refl, refl)
  send_with_cases (false ∷ os) msg net = inr (refl, refl, refl)

  pub send_cases :
      (msg : Message M) (net : Net M)
      → ((next_outcome net.outcomes ≡ true)
          × ((send msg net).0 ≡ true)
          × ((send msg net).1.accepted ≡ net.accepted ++ msg ∷ []))
        ⊎ ((next_outcome net.outcomes ≡ false)
            × ((send msg net).0 ≡ false)
            × ((send msg net).1.accepted ≡ net.accepted))
  unfolding send
  send_cases msg net = send_with_cases net.outcomes msg net

  -- A round that sent the first batch leaves the rest to account for.
  sent_batch :
      (size : ℕ) (ms rest : List M) (d d' e : List (Message M))
      → d' ≡ d ++ metric_batch (take size ms) ∷ []
      → metrics_in e ++ rest ≡ metrics_in d' ++ drop size ms
      → metrics_in e ++ rest ≡ metrics_in d ++ ms
  sent_batch size ms rest d d' e p h =
      h
      ∙ ap (λ l. metrics_in l ++ drop size ms) p
      ∙ ap (λ l. l ++ drop size ms) (metrics_in-append d (metric_batch (take size ms) ∷ []))
      ∙ ap (λ l. (metrics_in d ++ l) ++ drop size ms) (append-nil (take size ms))
      ∙ append_assoc (metrics_in d) (take size ms) (drop size ms)
      ∙ ap (λ l. metrics_in d ++ l) (take-append-drop size ms)

  send_with_succeeds :
      (os : List Bool) (msg : Message M) (net : Net M)
      → All (λ o. o ≡ true) os
      → All (λ o. o ≡ true) net.outcomes
      → ((send_with os msg net).0 ≡ true) × All (λ o. o ≡ true) (send_with os msg net).1.outcomes
  unfolding send_with
  send_with_succeeds [] msg net h k = (refl, k)
  send_with_succeeds (true ∷ os) msg net h k = (refl, h.1)
  send_with_succeeds (false ∷ os) msg net h k = cc h.0

  -- No message carries more than `size` metrics.
  abbrev pub Batched : ℕ → List (Message M) → Type 0
  Batched size = All (λ msg. length (metrics_of msg) ≤ size)

  -- What a loop over `ms` owes: `r.0` is what it did not send, and `r.1` the network after it.
  pub record Accounts (size : ℕ) (ms : List M) (net : Net M) (r : List M × Net M) : Type 0 where
    pub total : metrics_in r.1.accepted ++ r.0 ≡ metrics_in net.accepted ++ ms
    pub shorter : length r.0 ≤ length ms
    pub batched : Batched size r.1.accepted

  pub Accounts-round :
      (size : ℕ) (ms : List M) (net : Net M) (r : List M × Net M)
      → Batched size net.accepted
      → (let s = send (metric_batch (take size ms)) net in
          (Batched size s.1.accepted → Accounts size (drop size ms) s.1 r)
          → Accounts size ms net (if s.0 then r else (ms, s.1)))
  Accounts-round size ms net r b ih = elim (send_cases (metric_batch (take size ms)) net) [
    | inl (_, e, d) ↦
        let s = send (metric_batch (take size ms)) net in
        let b' : Batched size s.1.accepted = subst (Batched size) (sym d) (
          All-append (λ msg. length (metrics_of msg) ≤ size) net.accepted _ b
            (omega (arith, length-take size ms), tt)) in
        let a : Accounts size (drop size ms) s.1 r = ih b' in
        rw e (record {
          total = sent_batch size ms r.0 net.accepted s.1.accepted r.1.accepted d a.total;
          shorter = omega (arith, a.shorter, length-drop size ms);
          batched = a.batched;
        })
    | inr (_, e, d) ↦ rw e (record {
      total = ap (λ l. metrics_in l ++ ms) d;
      shorter = omega arith;
      batched = subst (Batched size) (sym d) b;
    })
  ]

  pub Accounts-none :
      (size : ℕ) (ms : List M) (net : Net M)
      → Batched size net.accepted
      → Accounts size ms net (ms, net)
  Accounts-none size ms net b = record { total = refl; shorter = omega arith; batched = b }

  pub replay_loop-Accounts :
      (fuel size : ℕ) (ms : List M) (net : Net M)
      → Batched size net.accepted
      → Accounts size ms net (replay_loop fuel size ms net)
  unfolding replay_loop
  replay_loop-Accounts zero size ms net b = Accounts-none size ms net b
  replay_loop-Accounts (suc fuel) size [] net b = Accounts-none size [] net b
  replay_loop-Accounts (suc fuel) size (m ∷ ms) net b =
      Accounts-round size (m ∷ ms) net _ b (replay_loop-Accounts fuel size _ _)

  pub flush_loop-Accounts :
      (fuel size : ℕ) (expired : List Bool) (ms : List M) (net : Net M)
      → Batched size net.accepted
      → Accounts size ms net (flush_loop fuel size expired ms net)
  unfolding flush_loop
  flush_loop-Accounts zero size expired ms net b = Accounts-none size ms net b
  flush_loop-Accounts (suc fuel) size expired [] net b = Accounts-none size [] net b
  flush_loop-Accounts (suc fuel) size (true ∷ expired) (m ∷ ms) net b =
      Accounts-none size (m ∷ ms) net b
  flush_loop-Accounts (suc fuel) size (false ∷ expired) (m ∷ ms) net b =
      Accounts-round size (m ∷ ms) net _ b (flush_loop-Accounts fuel size expired _ _)
  flush_loop-Accounts (suc fuel) size [] (m ∷ ms) net b =
      Accounts-round size (m ∷ ms) net _ b (flush_loop-Accounts fuel size [] _ _)

  pub no_nil-map : (ms : List M) → no_nil (map some ms) ≡ some ms
  unfolding no_nil
  no_nil-map [] = refl
  no_nil-map (m ∷ ms) = rw (no_nil-map ms)

  -- While every send succeeds the loop gets through: the fuel is enough.
  pub replay_loop_sends :
      (fuel size : ℕ) (ms : List M) (net : Net M)
      → length ms ≤ fuel
      → 0 < size
      → All (λ o. o ≡ true) net.outcomes
      → (replay_loop fuel size ms net).0 ≡ []
  unfolding replay_loop send
  replay_loop_sends zero size [] net h p o = refl
  replay_loop_sends zero size (m ∷ ms) net h p o = absurd (omega arith)
  replay_loop_sends (suc fuel) size [] net h p o = refl
  replay_loop_sends (suc fuel) size (m ∷ ms) net h p o =
      let (sent, later) =
        send_with_succeeds net.outcomes (metric_batch (take size (m ∷ ms))) net o o in
      rw sent (
        replay_loop_sends fuel size (drop size (m ∷ ms)) _
          (omega (arith, length-drop size (m ∷ ms))) p later)
