-- ===== src/Grpc/Cache/Slots.antt =====
-- Which slots of the ring hold a queue: the arithmetic of positions modulo the size.
use native.Mathlib.Nat.{mod-add-mod, div-add-mod}
use nodeagentx.Prelude.{
  ℕ, ◌+◌, ◌%◌, ◌≤◌, ◌<◌, ◌≡◌, ◌≢◌, Option, some, List, [], ◌∷◌, ◌++◌, arith, length, get_elem?, set,
  get_elem?-set_ne, ap, ◌∙◌, sym,
}

-- Two positions less than one lap apart have different slots.
pub slot_ne : (m a b : ℕ) → a < b → b < a + m → a % m ≢ b % m
slot_ne m a b h k e = absurd (grind (arith, div-add-mod))

module _ {ℓ} {A : Type ℓ} where
  -- The queue `q` lies in the ring `buf` of `m` slots, from position `t` on.
  abbrev pub At : List (Option A) → ℕ → ℕ → List A → Type ℓ
  At buf m t [] = Unit
  At buf m t (x ∷ q) = (get_elem? buf (t % m) ≡ some (some x)) × At buf m (t + 1) q

  -- A write behind the queue, at most one lap on, leaves the queue in place.
  pub At-set :
      (buf : List (Option A)) (m t n : ℕ) (v : Option A) (q : List A)
      → t + length q ≤ n
      → n < t + m
      → At buf m t q
      → At (set buf (n % m) v) m t q
  At-set buf m t n v [] h k a = tt
  At-set buf m t n v (x ∷ q) h k (e, a) = (
    get_elem?-set_ne buf (n % m) (t % m) v (λ p. slot_ne m t n (omega arith) k (sym p)) ∙ e,
    At-set buf m (t + 1) n v q (omega arith) (omega arith) a,
  )

  pub At-append :
      (buf : List (Option A)) (m t n : ℕ) (x : A) (q : List A)
      → t + length q ≡ n
      → get_elem? buf (n % m) ≡ some (some x)
      → At buf m t q
      → At buf m t (q ++ x ∷ [])
  At-append buf m t n x [] h e a =
      let h' : t ≡ n = omega arith in (ap (λ k. get_elem? buf (k % m)) h' ∙ e, tt)
  At-append buf m t n x (y ∷ q) h e (d, a) = (d, At-append buf m (t + 1) n x q (omega arith) e a)

  -- Only the slot of the first position counts.
  pub At-mod :
      (buf : List (Option A)) (m t t' : ℕ) (q : List A)
      → t % m ≡ t' % m
      → At buf m t q
      → At buf m t' q
  At-mod buf m t t' [] e a = tt
  At-mod buf m t t' (x ∷ q) e (d, a) = (
    ap (get_elem? buf) (sym e) ∙ d,
    At-mod buf m (t + 1) (t' + 1) q
        (sym (mod-add-mod t m 1) ∙ ap (λ k. (k + 1) % m) e ∙ mod-add-mod t' m 1) a,
  )
