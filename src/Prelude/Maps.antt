-- ===== src/Prelude/Maps.antt =====
-- Go maps with string keys, as association lists. A `range` over a map visits the entries in list
-- order, which stands for the unspecified order of Go.
use Prim.Native.String.{String}
use mathlib.Core.Path.{◌≡◌, refl, ◌∙◌, sym, ap, subst}
use mathlib.Core.Bool.{false}
use mathlib.Core.Logic.{inl, inr}
use mathlib.Core.Option.{Option, none, some, some-injective}
use mathlib.Core.List.{List, [], ◌∷◌, ◌++◌, append_assoc, append-nil}
use text.Mathlib.Text.{◌==◌ as str_eq}
use text.Mathlib.TextEquality.{eq_iff}
use text.Mathlib.TextPositions.{eq_refl}
use native.Mathlib.Omega.{arith}
use nodeagentx.Prelude.Tests.{if◌then◌else◌, Bool-cases}

abbrev pub Map {ℓ} : Type ℓ → Type ℓ
Map V = List (String × V)

module _ {ℓ} {V : Type ℓ} where
  -- v, ok := m[k]
  unfoldable pub lookup : String → Map V → Option V
  lookup key [] = none
  lookup key ((k, v) ∷ rest) = if str_eq k key then some v else lookup key rest

  -- m[k] = v
  unfoldable pub insert : String → V → Map V → Map V
  insert key new [] = (key, new) ∷ []
  insert key new ((k, old) ∷ rest) =
      if str_eq k key then (key, new) ∷ rest else (k, old) ∷ insert key new rest

  -- delete(m, k)
  unfoldable pub remove : String → Map V → Map V
  remove k [] = []
  remove k ((j, v) ∷ m) = let rest = remove k m in if str_eq j k then rest else (j, v) ∷ rest

  -- maps.Copy(dst, src)
  unfoldable pub copy : Map V → Map V → Map V
  copy dst [] = dst
  copy dst ((k, v) ∷ src) = copy (insert k v dst) src

  -- What is read after a write, at any key.
  pub lookup-insert :
      (written read : String) (v : V) (m : Map V)
      → lookup read (insert written v m) ≡ (if str_eq written read then some v else lookup read m)
  unfolding insert lookup
  lookup-insert a b v [] = refl
  lookup-insert a b v ((c, x) ∷ rest) =
      ground (lookup-insert a b v rest, eq_iff c b, eq_iff c a, eq_iff a b, arith)

  pub lookup-remove :
      (k j : String) (m : Map V) → lookup j (remove k m) ≡ (if str_eq k j then none else lookup j m)
  unfolding lookup remove
  lookup-remove k j [] = ground arith
  lookup-remove k j ((i, v) ∷ m) =
      ground (arith, lookup-remove k j m, eq_iff i k, eq_iff i j, eq_iff k j)

  pub lookup-insert_self : (k : String) (v : V) (m : Map V) → lookup k (insert k v m) ≡ some v
  lookup-insert_self key x m = simp (eq_refl, lookup-insert)

module _ {ℓ} {V : Type ℓ} where
  -- No key occurs twice, as in every Go map.
  abbrev pub Distinct : Map V → Type ℓ
  Distinct [] = Unit
  Distinct ((k, v) ∷ m) = (lookup k m ≡ none) × Distinct m

  abbrev pub AllValues {κ} : (V → Type κ) → Map V → Type κ
  AllValues P [] = Unit
  AllValues P ((k, v) ∷ m) = P v × AllValues P m

  insert_absent :
      (k : String) (v : V) (m : Map V) → lookup k m ≡ none → insert k v m ≡ m ++ (k, v) ∷ []
  unfolding insert lookup
  insert_absent k v [] h = refl
  insert_absent k v ((j, w) ∷ m) h = ground (arith, insert_absent k v m)

  lookup_middle :
      (j k : String) (v : V) (dst src : Map V)
      → lookup j (dst ++ (k, v) ∷ src) ≡ none
      → str_eq j k ≡ false
  unfolding lookup
  lookup_middle j k v [] src h = ground (arith, eq_iff j k, eq_iff k j)
  lookup_middle j k v ((i, w) ∷ dst) src h = ground (arith, lookup_middle j k v dst src)

  lookup_before :
      (k : String) (v : V) (dst src : Map V) → Distinct (dst ++ (k, v) ∷ src) → lookup k dst ≡ none
  unfolding lookup
  lookup_before k v [] src d = refl
  lookup_before k v ((j, w) ∷ dst) src (h, d) =
      ground (arith, lookup_before k v dst src d, lookup_middle j k v dst src h)

  copy-append : (dst src : Map V) → Distinct (dst ++ src) → copy dst src ≡ dst ++ src
  unfolding copy
  copy-append dst [] d = sym (append-nil dst)
  copy-append dst ((k, v) ∷ src) d =
      let e : insert k v dst ++ src ≡ dst ++ (k, v) ∷ src =
        ap (λ m. m ++ src) (insert_absent k v dst (lookup_before k v dst src d))
        ∙ append_assoc dst ((k, v) ∷ []) src in
      copy-append (insert k v dst) src (subst Distinct (sym e) d) ∙ e

  -- Copying a map into an empty one gives the same map.
  pub copy-nil : (m : Map V) → Distinct m → copy [] m ≡ m
  copy-nil m d = copy-append [] m d

  pub AllValues-insert {κ} :
      (P : V → Type κ) (k : String) (v : V) (m : Map V)
      → P v
      → AllValues P m
      → AllValues P (insert k v m)
  unfolding insert
  AllValues-insert P k v [] h a = (h, tt)
  AllValues-insert P k v ((j, w) ∷ m) h (hw, a) = elim (Bool-cases (str_eq j k)) [
    | inl e ↦ rw e (h, a)
    | inr e ↦ rw e (hw, AllValues-insert P k v m h a)
  ]

  pub AllValues-copy {κ} :
      (P : V → Type κ) (dst src : Map V)
      → AllValues P dst
      → AllValues P src
      → AllValues P (copy dst src)
  unfolding copy
  AllValues-copy P dst [] h a = h
  AllValues-copy P dst ((k, v) ∷ src) h (hv, a) =
      AllValues-copy P (insert k v dst) src (AllValues-insert P k v dst hv h) a

  -- The first of two lookups that finds something.
  abbrev pub or_else : Option V → Option V → Option V
  or_else none o = o
  or_else (some v) o = some v

  -- After maps.Copy the source's entries win.
  pub lookup-copy :
      (j : String) (dst src : Map V)
      → Distinct src
      → lookup j (copy dst src) ≡ or_else (lookup j src) (lookup j dst)
  unfolding copy lookup
  lookup-copy j dst [] d = refl
  lookup-copy j dst ((k, v) ∷ src) (h, d) =
      ground (arith, lookup-copy j (insert k v dst) src d, lookup-insert k j v dst, eq_iff k j)

  pub AllValues-remove {κ} :
      (P : V → Type κ) (k : String) (m : Map V) → AllValues P m → AllValues P (remove k m)
  unfolding remove
  AllValues-remove P k [] a = tt
  AllValues-remove P k ((j, v) ∷ m) (h, a) = elim (Bool-cases (str_eq j k)) [
    | inl e ↦ rw e (AllValues-remove P k m a)
    | inr e ↦ rw e (h, AllValues-remove P k m a)
  ]

  pub AllValues-lookup {κ} :
      (P : V → Type κ) (k : String) {v : V} (m : Map V) → AllValues P m → lookup k m ≡ some v → P v
  unfolding lookup
  AllValues-lookup P k [] a e = cc
  AllValues-lookup P k ((j, w) ∷ m) (h, a) e = elim (Bool-cases (str_eq j k)) [
    | inl t ↦ subst P (some-injective _ _ (rw t at e)) h
    | inr t ↦ AllValues-lookup P k m a (rw t at e)
  ]

  -- A predicate of every key with its value.
  abbrev pub AllEntries {κ} : (String → V → Type κ) → Map V → Type κ
  AllEntries P [] = Unit
  AllEntries P ((k, v) ∷ m) = P k v × AllEntries P m

  pub AllEntries-insert {κ} :
      (P : String → V → Type κ) (k : String) (v : V) (m : Map V)
      → P k v
      → AllEntries P m
      → AllEntries P (insert k v m)
  unfolding insert
  AllEntries-insert P k v [] h a = (h, tt)
  AllEntries-insert P k v ((j, w) ∷ m) h (hw, a) = elim (Bool-cases (str_eq j k)) [
    | inl e ↦ rw e (h, a)
    | inr e ↦ rw e (hw, AllEntries-insert P k v m h a)
  ]

  pub AllEntries-remove {κ} :
      (P : String → V → Type κ) (k : String) (m : Map V)
      → AllEntries P m
      → AllEntries P (remove k m)
  unfolding remove
  AllEntries-remove P k [] a = tt
  AllEntries-remove P k ((j, v) ∷ m) (h, a) = elim (Bool-cases (str_eq j k)) [
    | inl e ↦ rw e (AllEntries-remove P k m a)
    | inr e ↦ rw e (h, AllEntries-remove P k m a)
  ]

  pub AllEntries-lookup {κ} :
      (P : String → V → Type κ) (k : String) {v : V} (m : Map V)
      → AllEntries P m
      → lookup k m ≡ some v
      → P k v
  unfolding lookup
  AllEntries-lookup P k [] a e = cc
  AllEntries-lookup P k ((j, w) ∷ m) (h, a) e = elim (Bool-cases (str_eq j k)) [
    | inl t ↦ subst (P k) (some-injective _ _ (rw t at e)) (subst (λ i. P i w) ((eq_iff j k).0 t) h)
    | inr t ↦ AllEntries-lookup P k m a (rw t at e)
  ]

  pub Distinct-insert : (k : String) (v : V) (m : Map V) → Distinct m → Distinct (insert k v m)
  unfolding insert lookup
  Distinct-insert k v [] d = (refl, tt)
  Distinct-insert k v ((j, w) ∷ m) (h, d) = elim (Bool-cases (str_eq j k)) [
    | inl e ↦ rw e (subst (λ i. lookup i m ≡ none) ((eq_iff j k).0 e) h, d)
    | inr e ↦
        rw e
          (ground (arith, lookup-insert k j v m, eq_iff j k, eq_iff k j), Distinct-insert k v m d)
  ]

  pub Distinct-remove : (k : String) (m : Map V) → Distinct m → Distinct (remove k m)
  unfolding remove
  Distinct-remove k [] d = tt
  Distinct-remove k ((j, w) ∷ m) (h, d) = elim (Bool-cases (str_eq j k)) [
    | inl e ↦ rw e (Distinct-remove k m d)
    | inr e ↦ rw e (ground (arith, lookup-remove k j m), Distinct-remove k m d)
  ]

  pub remove_absent : (k : String) (m : Map V) → lookup k m ≡ none → remove k m ≡ m
  unfolding remove lookup
  remove_absent k [] h = refl
  remove_absent k ((j, w) ∷ m) h = ground (arith, remove_absent k m)

  -- What holds of the entries of a map holds of them under a weaker predicate that may leave one
  -- absent key aside.
  pub AllEntries-others {κ μ} :
      (P : String → V → Type κ) (Q : String → V → Type μ) (k : String) (m : Map V)
      → lookup k m ≡ none
      → ((j : String) (v : V) → str_eq k j ≡ false → P j v → Q j v)
      → AllEntries P m
      → AllEntries Q m
  unfolding lookup
  AllEntries-others P Q k [] h f a = tt
  AllEntries-others P Q k ((j, v) ∷ m) h f (p, a) = (
    f j v (ground (arith, eq_iff k j, eq_iff j k)) p,
    AllEntries-others P Q k m (ground arith) f a,
  )

  pub AllEntries-self : (m : Map V) → Distinct m → AllEntries (λ k v. lookup k m ≡ some v) m
  unfolding lookup
  AllEntries-self [] d = tt
  AllEntries-self ((k, v) ∷ m) (h, d) = (
    rw (eq_refl k),
    AllEntries-others (λ j w. lookup j m ≡ some w) _ k m h (λ j w e p. rw e p)
        (AllEntries-self m d),
  )
