-- ===== src/Alerting/Rules.antt =====
-- internal/alerting/rules.go. Times and durations are numbers of nanoseconds; the zero time is 0.
-- time.Time.Sub is exact up to 292 years, and taken as exact here.
use nodeagentx.Prelude.{ℕ, zero, suc, ◌+◌, String, Bool, true, false, not, leb, if◌then◌else◌}
use nodeagentx.Prelude.Int.{ℤ, pos, negsuc}

-- Go's comparisons of float64, the conversion from int64, and the text of an alert.
pub record Floats (F : Type 0) : Type 0 where
  pub less_than : F → F → Bool
  pub at_most : F → F → Bool
  pub equals : F → F → Bool
  pub of_int : ℤ → F
  pub sprintf : String → String → F → F → String

pub data State : Type 0 where
  ok pending firing : State

-- `no_operator` is any text that the switch of `Evaluate` does not name.
pub data Operator : Type 0 where
  greater less greater_eq less_eq equal not_equal no_operator : Operator

pub record AlertCondition (F : Type 0) : Type 0 where
  pub metric : String
  pub operator : Operator
  pub threshold : F

pub record EvaluatedRule (F : Type 0) : Type 0 where
  pub name : String
  pub condition : AlertCondition F
  pub severity : String
  pub duration : ℤ
  pub state : State
  pub triggered_at : ℕ
  pub current_value : F

pub record Alert (F : Type 0) : Type 0 where
  pub name : String
  pub state : State
  pub severity : String
  pub current_value : F
  pub threshold : F
  pub message : String

-- now.Sub(triggered) >= duration
unfoldable pub has_waited : ℕ → ℕ → ℤ → Bool
has_waited now triggered (pos d) = leb (triggered + d) now
has_waited now triggered (negsuc d) = leb triggered (now + suc d)

-- duration == 0
unfoldable pub is_zero : ℤ → Bool
is_zero (pos zero) = true
is_zero _ = false

module _ {F : Type 0} where
  unfoldable pub holds_for : Floats F → Operator → F → F → Bool
  holds_for fl greater value threshold = fl.less_than threshold value
  holds_for fl less value threshold = fl.less_than value threshold
  holds_for fl greater_eq value threshold = fl.at_most threshold value
  holds_for fl less_eq value threshold = fl.at_most value threshold
  holds_for fl equal value threshold = fl.equals value threshold
  holds_for fl not_equal value threshold = not (fl.equals value threshold)
  holds_for fl no_operator value threshold = false

  unfoldable pub evaluate_condition : Floats F → AlertCondition F → F → Bool
  unfolding holds_for
  evaluate_condition fl c value = holds_for fl c.operator value c.threshold

  -- One clause for each case of the switch and each value of `met`.
  unfoldable pub condition_met_in : State → Bool → ℕ → EvaluatedRule F → EvaluatedRule F
  unfolding is_zero has_waited
  condition_met_in ok true now r =
      if is_zero r.duration
      then record r { state = firing }
      else record r { state = pending; triggered_at = now }
  condition_met_in ok false now r = r
  condition_met_in pending true now r =
      if has_waited now r.triggered_at r.duration then record r { state = firing } else r
  condition_met_in pending false now r = record r { state = ok; triggered_at = 0 }
  condition_met_in firing true now r = r
  condition_met_in firing false now r = record r { state = ok; triggered_at = 0 }

  unfoldable pub condition_met : Bool → ℕ → EvaluatedRule F → EvaluatedRule F
  unfolding condition_met_in
  condition_met met now r = condition_met_in r.state met now r
