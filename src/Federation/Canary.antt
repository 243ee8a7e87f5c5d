-- ===== src/Federation/Canary.antt =====
-- internal/federation/canary.go: the stages of a rollout, and the agents that a stage reaches. The
-- product of two counts is exact in a float64, and so is the rounding of its hundredth, as long as
-- it is below 2^53.
use nodeagentx.Prelude.{
  ℕ, ◌+◌, ◌*◌, ◌/◌, String, Bool, Option, none, some, List, [], ltb, ◌==◌, length, take, get_elem?,
  if◌then◌else◌,
}
use nodeagentx.Prelude.Int.{ℤ, pos, negsuc}

pub record CanaryStage : Type 0 where
  pub percentage : ℤ
  pub wait_seconds : ℤ
  pub auto_rollback : Bool

pub data Subset : Type 0 where
  out_of_range : ℤ → ℕ → Subset
  agents : List String → Subset

-- stages[index], with the test before it.
unfoldable pub get_stage : List CanaryStage → ℤ → Option CanaryStage
get_stage stages (pos i) = get_elem? stages i
get_stage stages (negsuc i) = none

-- int(math.Round(float64(total) * float64(percentage) / 100.0)) with the bounds of the code: at
-- least one, at most all.
unfoldable pub subset_count : ℕ → ℤ → ℕ
subset_count total (negsuc n) = 1
subset_count total (pos percentage) =
    let count = (total * percentage + 50) / 100 in
    let positive = if count == 0 then 1 else count in if ltb total positive then total else positive

unfoldable pub select_subset : List CanaryStage → List String → ℤ → Subset
select_subset stages names index = elim (get_stage stages index) [
  | none ↦ out_of_range index (length stages)
  | some stage ↦
      if length names == 0
      then agents []
      else agents (take (subset_count (length names) stage.percentage) names)
]
