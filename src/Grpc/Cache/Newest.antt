-- ===== src/Grpc/Cache/Newest.antt =====
-- A run of additions: the loops `for _, m := range metrics { c.cache.Add(m) }` of client.go.
use nodeagentx.Prelude.{
  ℕ, suc, ◌-◌, ◌≤◌, ◌<◌, ◌≡◌, refl, Option, some, List, [], ◌∷◌, ◌++◌, ap, ◌∙◌, sym, subst, arith,
  length, length-append, append-nil, append_assoc, ◌==◌, ◌>>=◌, Bool-cases, inl, inr, ==_iff,
}
use mathlib.Core.Bool.{false≢true}
use nodeagentx.Prelude.Newest.{newest, newest-all, newest-newest_append}
use nodeagentx.Grpc.Cache.{MetricCache, add}
use nodeagentx.Grpc.Cache.Refine.{Holds, push, add-Holds}

module _ {ℓ} {A : Type ℓ} where
  unfoldable pub add_all : MetricCache A → List A → Option (MetricCache A)
  add_all c [] = some c
  add_all c (x ∷ xs) = add c x >>= λ c'. add_all c' xs

  push-eq-newest :
      (m : ℕ) (q : List A) (x : A) → 0 < m → length q ≤ m → push m q x ≡ newest m (q ++ x ∷ [])
  push-eq-newest m [] x p h = sym (newest-all m (x ∷ []) p)
  push-eq-newest m (y ∷ q) x p h = elim (Bool-cases (length (y ∷ q) == m)) [
    | inl e ↦
        let k : length (y ∷ q ++ x ∷ []) - m ≡ suc 0 =
          omega (arith, length-append q (x ∷ []), (==_iff _ m).0 e) in
        rw (e, k)
    | inr e ↦ rw e (
        sym (
          newest-all m (y ∷ q ++ x ∷ []) (
            omega (
              arith,
              length-append q (x ∷ []),
              λ (p : length (y ∷ q) ≡ m). false≢true (sym e ∙ (==_iff _ m).1 p),
            ))))
  ]

  newest-push_append :
      (m : ℕ) (q : List A) (x : A) (xs : List A)
      → 0 < m
      → length q ≤ m
      → newest m (push m q x ++ xs) ≡ newest m (q ++ x ∷ xs)
  newest-push_append m q x xs p h =
      ap (λ l. newest m (l ++ xs)) (push-eq-newest m q x p h)
      ∙ newest-newest_append m (q ++ x ∷ []) xs
      ∙ ap (newest m) (append_assoc q (x ∷ []) xs)

  -- Adding metrics one by one never panics, and leaves the newest `max_size` of what the cache held
  -- followed by them, in order.
  pub add_all-Holds :
      (c : MetricCache A) (q xs : List A)
      → Holds c q
      → (c' : MetricCache A) × (add_all c xs ≡ some c')
        × Holds c' (newest c.max_size (q ++ xs))
        × (c'.max_size ≡ c.max_size)
  unfolding add_all
  add_all-Holds c q [] v = (
    c,
    refl,
    subst (Holds c)
        (sym (
          ap (newest c.max_size) (append-nil q)
          ∙ newest-all c.max_size q (omega (arith, v.counted, v.bounded))))
        v,
    refl,
  )
  add_all-Holds c q (x ∷ xs) v =
      let (c1, e1, v1, m1) = add-Holds c q x v in
      let (c2, e2, v2, m2) = add_all-Holds c1 (push c.max_size q x) xs v1 in
      (
        c2,
        rw e1 e2,
        subst (Holds c2)
            (ap (λ m. newest m (push c.max_size q x ++ xs)) m1
              ∙ newest-push_append c.max_size q x xs v.positive
                  (omega (arith, v.counted, v.bounded)))
            v2,
        m2 ∙ m1,
      )
