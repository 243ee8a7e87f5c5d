-- ===== src/Grpc/Cache.antt =====
-- internal/grpcclient/cache.go: the ring buffer that keeps metrics while the platform is away.
-- `A` stands for `*collector.Metric` without nil; an empty slot is `none`. An index out of range
-- panics in Go: the operations return `Option`, with `none` for the panic.

pub mod Slots
pub mod Refine
pub mod Newest
use nodeagentx.Prelude.{
  ℕ, zero, suc, ◌+◌, ◌%◌, Option, none, some, List, [], ◌∷◌, ◌==◌, if◌then◌else◌, ◌>>=◌, get_elem?,
  set?, replicate,
}
use nodeagentx.Prelude.Int.{ℤ, pos, negsuc}

pub record MetricCache {ℓ} (A : Type ℓ) : Type ℓ where
  pub buf : List (Option A)
  pub max_size : ℕ
  pub head : ℕ  -- next write position
  pub tail : ℕ  -- next read position
  pub count : ℕ

-- The size that the cache gets: at least one slot.
capacity : ℤ → ℕ
capacity (pos (suc n)) = suc n
capacity (pos zero) = 1
capacity (negsuc n) = 1

module _ {ℓ} {A : Type ℓ} where
  unfoldable pub new_metric_cache : ℤ → MetricCache A
  unfolding capacity
  new_metric_cache max_size = record {
    buf = replicate (capacity max_size) none;
    max_size = capacity max_size;
    head = 0;
    tail = 0;
    count = 0;
  }

  unfoldable pub add : MetricCache A → A → Option (MetricCache A)
  add c m = do
    buf ← set? c.buf c.head (some m)
    let c' = record c { buf = buf; head = (c.head + 1) % c.max_size }
    some (
        if c.count == c.max_size
        then record c' { tail = (c.tail + 1) % c.max_size }
        else record c' { count = c.count + 1 })

  -- The loop of `Drain` over the rounds left, the `i`-th first: what it reads, and the slots it leaves.
  drain_loop : ℕ → ℕ → ℕ → ℕ → List (Option A) → Option (List (Option A) × List (Option A))
  drain_loop zero i tail max_size buf = some ([], buf)
  drain_loop (suc n) i tail max_size buf = do
    let idx = (tail + i) % max_size
    m ← get_elem? buf idx
    buf' ← set? buf idx none
    (rest, left) ← drain_loop n (i + 1) tail max_size buf'
    some (m ∷ rest, left)

  unfoldable pub drain : MetricCache A → Option (List (Option A) × MetricCache A)
  unfolding drain_loop
  drain c = if c.count == 0 then some ([], c) else (do
    (result, buf) ← drain_loop c.count 0 c.tail c.max_size c.buf
    some (result, record c { buf = buf; head = 0; tail = 0; count = 0 }))

  unfoldable pub len : MetricCache A → ℕ
  len c = c.count
