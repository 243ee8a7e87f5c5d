-- ===== src/Grpc/Cache/Refine.antt =====
-- The ring buffer against the queue that it stands for: first in, first out, and on overflow the
-- oldest entry goes.
use native.Mathlib.Nat.{mod-lt, mod-add-mod, mod-eq_of_lt, mod-mod, add-mod_right}
use nodeagentx.Prelude.{
  ℕ, zero, suc, ◌+◌, ◌%◌, ◌≤◌, ◌<◌, ◌≡◌, refl, Option, none, some, List, [], ◌∷◌, ◌++◌, arith,
  length, get_elem?, set, get_elem?-set_self, length-set, set?-eq-set, ap, ◌∙◌, sym, map, subst,
  true, false, ◌==◌, if◌then◌else◌, length-append, length-replicate, Bool-cases, inl, inr,
}
use nodeagentx.Prelude.Int.{ℤ, pos, negsuc}
use nodeagentx.Grpc.Cache.{MetricCache, capacity, new_metric_cache, add, drain_loop, drain}
use nodeagentx.Grpc.Cache.Slots.{At, At-set, At-append, At-mod}

capacity_pos : (n : ℤ) → 0 < capacity n
unfolding capacity
capacity_pos (pos (suc n)) = omega arith
capacity_pos (pos zero) = omega arith
capacity_pos (negsuc n) = omega arith

module _ {ℓ} {A : Type ℓ} where
  -- The cache holds the queue `q`.
  pub record Holds (c : MetricCache A) (q : List A) : Type ℓ where
    pub sized : length c.buf ≡ c.max_size
    pub positive : 0 < c.max_size
    pub counted : length q ≡ c.count
    pub bounded : c.count ≤ c.max_size
    pub tail_in : c.tail < c.max_size
    pub head_at : c.head ≡ (c.tail + c.count) % c.max_size
    pub stored : At c.buf c.max_size c.tail q

  -- What an addition means for the queue.
  abbrev pub push : ℕ → List A → A → List A
  push m [] x = x ∷ []
  push m (y ∷ q) x = if length (y ∷ q) == m then q ++ x ∷ [] else (y ∷ q) ++ x ∷ []

  -- A new cache is empty.
  pub new_metric_cache-Holds : (n : ℤ) → Holds (new_metric_cache n) []
  unfolding new_metric_cache
  new_metric_cache-Holds n = record {
    sized = length-replicate (capacity n) none;
    positive = capacity_pos n;
    counted = refl;
    bounded = omega arith;
    tail_in = capacity_pos n;
    head_at = sym (mod-eq_of_lt (capacity_pos n));
    stored = tt;
  }

  -- The cache after an addition that does not panic.
  abbrev added : MetricCache A → A → MetricCache A
  added c x =
      let c' = record c { buf = set c.buf c.head (some x); head = (c.head + 1) % c.max_size } in
      if c.count == c.max_size
      then record c' { tail = (c.tail + 1) % c.max_size }
      else record c' { count = c.count + 1 }

  head_in : (c : MetricCache A) (q : List A) → Holds c q → c.head < c.max_size
  head_in c q v = subst (λ k. k < c.max_size) (sym v.head_at) (mod-lt _ v.positive)

  add-added : (c : MetricCache A) (q : List A) (x : A) → Holds c q → add c x ≡ some (added c x)
  unfolding add
  add-added c q x v =
      rw (set?-eq-set c.buf c.head (some x) (subst (λ k. c.head < k) (sym v.sized) (head_in c q v)))

  stored_new :
      (c : MetricCache A) (q : List A) (x : A)
      → Holds c q
      → get_elem? (set c.buf c.head (some x)) ((c.tail + c.count) % c.max_size) ≡ some (some x)
  stored_new c q x v =
      subst (λ k. get_elem? (set c.buf c.head (some x)) k ≡ some (some x)) v.head_at
        (get_elem?-set_self c.buf c.head (some x)
          (subst (λ k. c.head < k) (sym v.sized) (head_in c q v)))

  head_next :
      (c : MetricCache A) (q : List A)
      → Holds c q
      → (c.head + 1) % c.max_size ≡ (c.tail + c.count + 1) % c.max_size
  head_next c q v =
      ap (λ k. (k + 1) % c.max_size) v.head_at ∙ mod-add-mod (c.tail + c.count) c.max_size 1

  stored_old :
      (c : MetricCache A) (t : ℕ) (p : List A) (x : A)
      → c.head ≡ (c.tail + c.count) % c.max_size
      → t + length p ≤ c.tail + c.count
      → c.tail + c.count < t + c.max_size
      → At c.buf c.max_size t p
      → At (set c.buf c.head (some x)) c.max_size t p
  stored_old c t p x e h k a = rw e (At-set c.buf c.max_size t (c.tail + c.count) (some x) p h k a)

  -- Room left: the new entry goes behind the queue.
  added_room :
      (c : MetricCache A) (q : List A) (x : A)
      → Holds c q
      → (c.count == c.max_size) ≡ false
      → Holds (added c x) (q ++ x ∷ [])
  added_room c q x v e = rw e (record {
    sized = length-set c.buf c.head (some x) ∙ v.sized;
    positive = v.positive;
    counted = omega (arith, length-append q (x ∷ []), v.counted);
    bounded = ground (arith, v.bounded);
    tail_in = v.tail_in;
    head_at = head_next c q v ∙ ap (λ k. k % c.max_size) (omega arith);
    stored = At-append _ _ _ _ x q (omega (arith, v.counted)) (stored_new c q x v) (
        stored_old c c.tail q x v.head_at (omega (arith, v.counted)) (ground (arith, v.bounded))
          v.stored);
  })

  -- No room: the oldest entry goes.
  added_full :
      (c : MetricCache A) (y : A) (q : List A) (x : A)
      → Holds c (y ∷ q)
      → (c.count == c.max_size) ≡ true
      → Holds (added c x) (q ++ x ∷ [])
  added_full c y q x v e = rw e (record {
    sized = length-set c.buf c.head (some x) ∙ v.sized;
    positive = v.positive;
    counted = omega (arith, length-append q (x ∷ []), v.counted);
    bounded = v.bounded;
    tail_in = mod-lt _ v.positive;
    head_at =
        head_next c (y ∷ q) v
        ∙ ap (λ k. k % c.max_size) (omega arith)
        ∙ sym (mod-add-mod (c.tail + 1) c.max_size c.count);
    stored =
        At-mod _ c.max_size (c.tail + 1) _ (q ++ x ∷ []) (sym (mod-mod (c.tail + 1) c.max_size)) (
          At-append _ _ _ _ x q (omega (arith, v.counted)) (stored_new c (y ∷ q) x v) (
            stored_old c (c.tail + 1) q x v.head_at (omega (arith, v.counted))
              (ground (arith, v.bounded)) v.stored.1));
  })

  added-Holds :
      (c : MetricCache A) (q : List A) (x : A) → Holds c q → Holds (added c x) (push c.max_size q x)
  added-Holds c [] x v = added_room c [] x v (ground (arith, v.counted, v.positive))
  added-Holds c (y ∷ q) x v = elim (Bool-cases (c.count == c.max_size)) [
    | inl full ↦
        rw (subst (λ k. (k == c.max_size) ≡ true) (sym v.counted) full) (added_full c y q x v full)
    | inr room ↦
        rw (subst (λ k. (k == c.max_size) ≡ false) (sym v.counted) room)
          (added_room c (y ∷ q) x v room)
  ]

  added-max_size : (c : MetricCache A) (x : A) → (added c x).max_size ≡ c.max_size
  added-max_size c x = ground arith

  -- An addition never panics, keeps the capacity, and appends to the queue that the cache holds; a
  -- full cache drops its oldest entry first.
  pub add-Holds :
      (c : MetricCache A) (q : List A) (x : A)
      → Holds c q
      → (c' : MetricCache A) × (add c x ≡ some c')
        × Holds c' (push c.max_size q x)
        × (c'.max_size ≡ c.max_size)
  add-Holds c q x v = (added c x, add-added c q x v, added-Holds c q x v, added-max_size c x)

  drain_loop_lem :
      (q : List A) (i tail m : ℕ) (buf : List (Option A))
      → length buf ≡ m
      → length q ≤ m
      → At buf m (tail + i) q
      → (left : List (Option A)) × (drain_loop (length q) i tail m buf ≡ some (map some q, left))
        × (length left ≡ m)
  unfolding drain_loop
  drain_loop_lem [] i tail m buf h k a = (buf, refl, h)
  drain_loop_lem (x ∷ q) i tail m buf h k (e, a) =
      let idx = (tail + i) % m in
      let p : idx < length buf = subst (λ n. idx < n) (sym h) (mod-lt _ (omega arith)) in
      let a' : At (set buf idx none) m (tail + (i + 1)) q =
        subst (λ n. At (set buf n none) m (tail + (i + 1)) q) (add-mod_right (tail + i) m)
          (At-set buf m (tail + (i + 1)) (tail + i + m) none q (omega arith) (omega arith)
            (subst (λ n. At buf m n q) (omega arith) a)) in
      let (left, d, l) =
        drain_loop_lem q (i + 1) tail m (set buf idx none) (length-set buf idx none ∙ h)
          (omega arith) a' in
      (left, rw (e, set?-eq-set buf idx none p, d), l)

  -- A drain never panics. It returns the whole queue, oldest first, and leaves the cache empty with
  -- the same capacity.
  pub drain-Holds :
      (c : MetricCache A) (q : List A)
      → Holds c q
      → (c' : MetricCache A) × (drain c ≡ some (map some q, c'))
        × Holds c' []
        × (c'.max_size ≡ c.max_size)
  unfolding drain
  drain-Holds c [] v = (c, ground (arith, v.counted), v, refl)
  drain-Holds c (x ∷ q) v =
      let (left, d, l) =
        drain_loop_lem (x ∷ q) 0 c.tail c.max_size c.buf v.sized (omega (arith, v.bounded))
          (subst (λ n. At c.buf c.max_size n (x ∷ q)) (omega arith) v.stored) in
      let d' : drain_loop c.count 0 c.tail c.max_size c.buf ≡ some (map some (x ∷ q), left) =
        subst (λ n. drain_loop n 0 c.tail c.max_size c.buf ≡ some (map some (x ∷ q), left))
          v.counted d in
      let busy : (c.count == 0) ≡ false = ground (arith, v.counted) in
      (
        record c { buf = left; head = 0; tail = 0; count = 0 },
        rw (busy, d'),
        record {
          sized = l;
          positive = v.positive;
          counted = refl;
          bounded = omega arith;
          tail_in = v.positive;
          head_at = sym (mod-eq_of_lt v.positive);
          stored = tt;
        },
        refl,
      )
