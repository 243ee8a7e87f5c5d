-- ===== src/Federation/Rollout.antt =====
-- The subsets of a rollout grow.
use nodeagentx.Prelude.{
  ℕ, zero, suc, ◌*◌, ◌/◌, ◌≤◌, ◌<◌, String, false, some, List, [], ◌∷◌, ◌++◌, ◌≡◌, refl, map, ap,
  ◌∙◌, length-map, length-take, ◌==◌, length, take, get_elem?, arith,
}
use nodeagentx.Prelude.Int.{ℤ, pos, negsuc}
use nodeagentx.Settings.Accepted.{IsRolloutAfter}
use nodeagentx.Federation.Canary.{CanaryStage, agents, get_stage, subset_count, select_subset}

div_mono : (a b : ℕ) → a ≤ b → a / 100 ≤ b / 100
div_mono a b h = omega (arith, h)

mul_mono : (t p q : ℕ) → p ≤ q → t * p ≤ t * q
mul_mono t p q h = grind (arith, h)

subset_count_mono :
    (total p q : ℕ) → p ≤ q → subset_count total (pos p) ≤ subset_count total (pos q)
unfolding subset_count
subset_count_mono total p q h = ground (arith, mul_mono total p q h)

subset_count-positive : (total p : ℕ) → 1 ≤ total → 1 ≤ subset_count total (pos p)
unfolding subset_count
subset_count-positive total p h = ground (arith, h)

-- A percentage of a rollout is above what came before.
percentage_above :
    (before : ℕ) (zs : List ℤ) (i : ℕ)
    → IsRolloutAfter before zs
    → i < length zs
    → (p : ℕ) × (get_elem? zs i ≡ some (pos p)) × (before ≤ p)
percentage_above before [] i h lt = absurd (omega (arith, lt))
percentage_above before (pos n ∷ zs) zero (up, most, later) lt = (n, refl, omega (arith, up))
percentage_above before (pos n ∷ zs) (suc i) (up, most, later) lt =
    let (p, at, below) = percentage_above n zs i later (omega (arith, lt)) in
    (p, at, omega (arith, up, below))
percentage_above before (negsuc n ∷ zs) i none_such lt = elim none_such [ ]

percentages_ascend :
    (before : ℕ) (zs : List ℤ) (i j : ℕ)
    → IsRolloutAfter before zs
    → i ≤ j
    → j < length zs
    → (p : ℕ) × (q : ℕ) × (get_elem? zs i ≡ some (pos p))
      × (get_elem? zs j ≡ some (pos q))
      × (p ≤ q)
percentages_ascend before [] i j h le lt = absurd (omega (arith, lt))
percentages_ascend before (negsuc n ∷ zs) i j none_such le lt = elim none_such [ ]
percentages_ascend before (pos n ∷ zs) zero zero h le lt = (n, n, refl, refl, omega arith)
percentages_ascend before (pos n ∷ zs) zero (suc j) (up, most, later) le lt =
    let (q, at, below) = percentage_above n zs j later (omega (arith, lt)) in
    (n, q, refl, at, below)
percentages_ascend before (pos n ∷ zs) (suc i) zero h le lt = absurd (omega (arith, le))
percentages_ascend before (pos n ∷ zs) (suc i) (suc j) (up, most, later) le lt =
    percentages_ascend n zs i j later (omega (arith, le)) (omega (arith, lt))

get_elem?-map {ℓ κ} :
    {A : Type ℓ} {B : Type κ} (f : A → B) (xs : List A) (i : ℕ) (y : B)
    → get_elem? (map f xs) i ≡ some y
    → (x : A) × (get_elem? xs i ≡ some x) × (f x ≡ y)
get_elem?-map f [] i y h = cc h
get_elem?-map f (x ∷ xs) zero y h = (x, refl, cc h)
get_elem?-map f (x ∷ xs) (suc i) y h = get_elem?-map f xs i y h

take-grows {ℓ} :
    {A : Type ℓ} (m n : ℕ) (xs : List A) → m ≤ n → (rest : List A) × (take n xs ≡ take m xs ++ rest)
take-grows zero n xs h = (take n xs, refl)
take-grows (suc m) zero xs h = absurd (omega (arith, h))
take-grows (suc m) (suc n) [] h = ([], refl)
take-grows (suc m) (suc n) (x ∷ xs) h =
    let (rest, e) = take-grows m n xs (omega (arith, h)) in (rest, rw e refl)

-- What a stage of a percentage selects.
select_subset-take :
    (stages : List CanaryStage) (x : String) (names : List String) (i p : ℕ)
    → get_elem? (map (λ s. s.percentage) stages) i ≡ some (pos p)
    → select_subset stages (x ∷ names) (pos i)
      ≡ agents (take (subset_count (length (x ∷ names)) (pos p)) (x ∷ names))
unfolding select_subset get_stage
select_subset-take stages x names i p h =
    let (stage, at, same) = get_elem?-map (λ s. s.percentage) stages i (pos p) h in
    let some_name : (suc (length names) == 0) ≡ false = ground arith in
    rw (at, same, some_name, select_subset) refl

stage_at :
    (stages : List CanaryStage) (i : ℕ)
    → i < length stages
    → (s : CanaryStage) × (get_elem? stages i ≡ some s)
stage_at [] i lt = absurd (omega (arith, lt))
stage_at (s ∷ stages) zero lt = (s, refl)
stage_at (s ∷ stages) (suc i) lt = stage_at stages i (omega (arith, lt))

select_subset-nil :
    (stages : List CanaryStage) (i : ℕ) (s : CanaryStage)
    → get_elem? stages i ≡ some s
    → select_subset stages [] (pos i) ≡ agents []
unfolding select_subset get_stage
select_subset-nil stages i s h = rw (h, select_subset) refl

-- When the percentages of the stages ascend within 1 to 100, each stage of a later index reaches the
-- agents of an earlier one first, in their order, possibly followed by others; and where there are
-- agents, a stage reaches at least one.
pub select_subset-grows :
    (stages : List CanaryStage) (names : List String) (i j : ℕ)
    → IsRolloutAfter 0 (map (λ s. s.percentage) stages)
    → i ≤ j
    → j < length stages
    → (reached : List String) × (more : List String) × (select_subset stages names (pos i)
        ≡ agents reached)
      × (select_subset stages names (pos j) ≡ agents (reached ++ more))
      × (1 ≤ length names → 1 ≤ length reached)
select_subset-grows stages [] i j h le lt =
    let (a, at) = stage_at stages i (omega (arith, le, lt)) in
    let (b, later) = stage_at stages j lt in
    (
      [],
      [],
      select_subset-nil stages i a at,
      select_subset-nil stages j b later,
      λ some_name. some_name,
    )
select_subset-grows stages (x ∷ names) i j h le lt =
    let zs = map (λ s. s.percentage) stages in
    let (p, q, first, second, below) =
      percentages_ascend 0 zs i j h le (rw (length-map (λ s. s.percentage) stages) lt) in
    let total = length (x ∷ names) in
    let (more, grown) =
      take-grows (subset_count total (pos p)) (subset_count total (pos q)) (x ∷ names)
        (subset_count_mono total p q below) in
    (
      take (subset_count total (pos p)) (x ∷ names),
      more,
      select_subset-take stages x names i p first,
      select_subset-take stages x names j q second ∙ ap agents grown,
      λ some_name. omega (
        arith,
        length-take (subset_count total (pos p)) (x ∷ names),
        subset_count-positive total p some_name,
      ),
    )
