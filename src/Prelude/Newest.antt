-- ===== src/Prelude/Newest.antt =====
-- The end of a list that fits into a capacity.
use Prim.Native.Nat.{ℕ, zero, suc, ◌+◌, ◌-◌, ◌≤◌}
use mathlib.Core.Path.{◌≡◌, refl, sym, ap, ◌∙◌}
use mathlib.Core.List.{List, [], ◌∷◌, ◌++◌}
use native.Mathlib.Omega.{arith}
use nodeagentx.Prelude.Lists.{length, drop, length-append, length-drop}

module _ {ℓ} {A : Type ℓ} where
  -- The last `m` elements.
  abbrev pub newest : ℕ → List A → List A
  newest m xs = drop (length xs - m) xs

  pub newest-all : (m : ℕ) (xs : List A) → length xs ≤ m → newest m xs ≡ xs
  newest-all m xs h = let e : length xs - m ≡ 0 = omega arith in rw e

  pub length-newest : (m : ℕ) (xs : List A) → length (newest m xs) ≤ m
  length-newest m xs = omega (arith, length-drop (length xs - m) xs)

  drop-append : (n : ℕ) (xs ys : List A) → n ≤ length xs → drop n (xs ++ ys) ≡ drop n xs ++ ys
  drop-append zero xs ys h = refl
  drop-append (suc n) [] ys h = absurd (omega arith)
  drop-append (suc n) (x ∷ xs) ys h = drop-append n xs ys (omega arith)

  drop-drop : (a b : ℕ) (xs : List A) → drop a (drop b xs) ≡ drop (b + a) xs
  drop-drop a zero xs = ap (λ n. drop n xs) (omega arith)
  drop-drop zero (suc b) [] = let e : suc b + 0 ≡ suc b = omega arith in rw e
  drop-drop (suc a) (suc b) [] = let e : suc b + suc a ≡ suc (b + suc a) = omega arith in rw e
  drop-drop a (suc b) (x ∷ xs) =
      let e : suc b + a ≡ suc (b + a) = omega arith in rw e (drop-drop a b xs)

  pub newest-newest_append :
      (m : ℕ) (xs ys : List A) → newest m (newest m xs ++ ys) ≡ newest m (xs ++ ys)
  newest-newest_append m xs ys =
      let k : ℕ = length xs - m in
      rw (sym (drop-append k xs ys (omega arith))) (
        drop-drop (length (drop k (xs ++ ys)) - m) k (xs ++ ys)
        ∙ ap (λ n. drop n (xs ++ ys))
            (omega (arith, length-drop k (xs ++ ys), length-append xs ys)))
