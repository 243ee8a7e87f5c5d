-- ===== src/Plugins/Gateway/Backoff.antt =====
-- restartBackoff of internal/pluginruntime/gateway.go. A time.Duration is an int64 number of
-- nanoseconds: a value from 2 ^ 63 on stands for a negative one.
use nodeagentx.Prelude.{
  ℕ, zero, suc, ◌*◌, ◌%◌, ◌^◌, ◌<◌, ◌≤◌, ◌≡◌, refl, Bool, ◌&&◌, ltb, if◌then◌else◌, arith, min, ◌∙◌,
  sym, Bool-cases, inl, inr,
}

abbrev pub sixty_seconds : ℕ
sixty_seconds = 60_000_000_000

-- backoff > 60*time.Second
is_over : ℕ → Bool
is_over b = ltb sixty_seconds b && ltb b (2 ^ 63)

-- The loop over the restarts left.
backoff_loop : ℕ → ℕ → ℕ
backoff_loop zero b = b
backoff_loop (suc n) b =
    let b' = (b * 2) % 2 ^ 64 in
    let rest = backoff_loop n b' in if is_over b' then sixty_seconds else rest

unfoldable pub restart_backoff : ℕ → ℕ → ℕ
unfolding backoff_loop is_over
restart_backoff configured restart_count = backoff_loop restart_count configured

-- Doubling with a cap, without machine words.
abbrev pub capped_doubling : ℕ → ℕ → ℕ
capped_doubling b zero = b
capped_doubling b (suc n) = min sixty_seconds (capped_doubling b n * 2)

small_step : (b : ℕ) → b ≤ sixty_seconds → (b * 2) % 2 ^ 64 ≡ b * 2
small_step b h = omega arith

capped-shift :
    (b n : ℕ) → b * 2 ≤ sixty_seconds → capped_doubling (b * 2) n ≡ capped_doubling b (suc n)
capped-shift b zero h = omega arith
capped-shift b (suc n) h = omega (arith, capped-shift b n h)

capped-top :
    (b n : ℕ)
    → b ≤ sixty_seconds
    → sixty_seconds < b * 2
    → capped_doubling b (suc n) ≡ sixty_seconds
capped-top b zero h k = omega arith
capped-top b (suc n) h k = omega (arith, capped-top b n h k)

backoff_loop_lem : (n b : ℕ) → b ≤ sixty_seconds → backoff_loop n b ≡ capped_doubling b n
unfolding backoff_loop is_over
backoff_loop_lem zero b h = refl
backoff_loop_lem (suc n) b h = rw (small_step b h) (elim (Bool-cases (is_over (b * 2))) [
  | inl over ↦ rw over (sym (capped-top b n h (ground (arith, over))))
  | inr under ↦
      let fits : b * 2 ≤ sixty_seconds = ground (arith, under) in
      rw under (backoff_loop_lem n (b * 2) fits ∙ capped-shift b n fits)
])

-- From a configured backoff of at most 60 seconds the delay doubles with every restart until it stays
-- at 60 seconds; no doubling wraps around.
pub restart_backoff-eq-capped_doubling :
    (b n : ℕ) → b ≤ sixty_seconds → restart_backoff b n ≡ capped_doubling b n
unfolding restart_backoff
restart_backoff-eq-capped_doubling b n h = backoff_loop_lem n b h
