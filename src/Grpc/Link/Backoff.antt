-- ===== src/Grpc/Link/Backoff.antt =====
-- How long the loop waits between attempts.
use nodeagentx.Prelude.{
  ℕ, zero, suc, ◌*◌, ◌%◌, ◌≤◌, ◌≡◌, refl, List, [], ◌∷◌, All, length, min, arith, ◌∙◌, ap,
  Bool-cases, inl, inr, leb,
}
use nodeagentx.Grpc.Link.{
  no_connection, no_stream, no_registration, up, Link, waiting, Event, attempt_ends, timer_fires,
  message_handled, recv_fails, context_done, next_backoff, connect, connect_loop, connect_loop_step,
  connect_loop_in,
}

-- A timer fires, and the attempt after it fails.
abbrev pub IsFailure : Event → Type 0
IsFailure (timer_fires (up k)) = ⊥
IsFailure (timer_fires d) = Unit
IsFailure _ = ⊥

-- A number doubled `n` times.
abbrev pub doubled : ℕ → ℕ → ℕ
doubled b zero = b
doubled b (suc n) = doubled (b * 2) n

doubled-le : (b n : ℕ) → b ≤ doubled b n
doubled-le b zero = omega arith
doubled-le b (suc n) = omega (arith, doubled-le (b * 2) n)

doubled-capped : (m b n : ℕ) → b ≤ m → min (doubled (min (b * 2) m) n) m ≡ min (doubled (b * 2) n) m
doubled-capped m b n h = elim (Bool-cases (leb (b * 2) m)) [
  | inl e ↦
      let fits : min (b * 2) m ≡ b * 2 = ground (arith, e) in ap (λ c. min (doubled c n) m) fits
  | inr e ↦
      let top : min (b * 2) m ≡ m = ground (arith, e) in
      ap (λ c. min (doubled c n) m) top ∙ ground (arith, e, doubled-le m n, doubled-le (b * 2) n)
]

next_backoff-min : (m b : ℕ) → b ≤ m → m ≤ 4611686018427387903 → next_backoff m b ≡ min (b * 2) m
unfolding next_backoff
next_backoff-min m b le small =
    let exact : b * 2 % 18446744073709551616 ≡ b * 2 = omega (arith, le, small) in
    rw exact (ground (arith, le, small))

failed_step :
    (m b : ℕ) (e : Event) (l : Link)
    → IsFailure e
    → (l' : Link) × (connect_loop_step m e (record { link = l; phase = waiting b })
        ≡ record { link = l'; phase = waiting (next_backoff m b) })
unfolding connect_loop_step connect_loop_in connect
failed_step m b (timer_fires no_connection) l h = (_, refl)
failed_step m b (timer_fires (no_stream k)) l h = (_, refl)
failed_step m b (timer_fires (no_registration k)) l h = (_, refl)
failed_step m b (timer_fires (up k)) l h = absurd h
failed_step m b (attempt_ends d) l h = absurd h
failed_step m b message_handled l h = absurd h
failed_step m b (recv_fails done) l h = absurd h
failed_step m b context_done l h = absurd h

-- When the maximum is below 2^62 nanoseconds, so that no doubling wraps around: a loop that waits for
-- a time within the maximum waits, after any number of failed attempts, for that time doubled as
-- often, or for the maximum when that is less.
pub phase-connect_loop :
    (m b : ℕ) (es : List Event) (l : Link)
    → b ≤ m
    → m ≤ 4611686018427387903
    → All IsFailure es
    → (connect_loop m es (record { link = l; phase = waiting b })).phase
      ≡ waiting (min (doubled b (length es)) m)
unfolding connect_loop
phase-connect_loop m b [] l h small a = ap waiting (omega arith)
phase-connect_loop m b (e ∷ es) l h small (f, a) =
    let (l', step) = failed_step m b e l f in
    ap (λ s. (connect_loop m es s).phase) step
    ∙ phase-connect_loop m (next_backoff m b) es l' (omega (arith, next_backoff-min m b h small))
        small a
    ∙ ap waiting (
        ap (λ c. min (doubled c (length es)) m) (next_backoff-min m b h small)
        ∙ doubled-capped m b (length es) h)
