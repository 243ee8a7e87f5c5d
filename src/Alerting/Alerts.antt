-- ===== src/Alerting/Alerts.antt =====
-- Which alerts an evaluation yields, and which rules an engine has.
use nodeagentx.Prelude.{
  ℕ, ◌≡◌, refl, String, Bool, true, false, ◌&&◌, Option, none, some, List, [], ◌∷◌, ap, ◌∙◌, All,
  if◌then◌else◌, arith,
}
use nodeagentx.Prelude.Int.{ℤ}
use nodeagentx.Prelude.Maps.{Map, lookup}
use nodeagentx.Collector.Metric.{Metric}
use nodeagentx.Alerting.Rules.{
  Floats, State, ok, pending, firing, AlertCondition, EvaluatedRule, Alert, condition_met,
  condition_met_in, evaluate_condition, has_waited, is_zero,
}
use nodeagentx.Alerting.Pattern.{has_newline, parse_condition}
use nodeagentx.Alerting.Operators.{IsOffered, match_condition-Offers}
use nodeagentx.Alerting.Engine.{
  RuleConfig, Engine, new_rules, new_engine, add_rule, alert_of, is_new, evaluate_rule,
  evaluate_rules, evaluate, put_metrics, push_alert,
}

module _ {F : Type 0} (fl : Floats F) where
  -- A rule that is not firing yet has waited long enough to fire at its next met observation.
  abbrev is_due : ℕ → EvaluatedRule F → State → Bool
  is_due now r ok = is_zero r.duration
  is_due now r pending = has_waited now r.triggered_at r.duration
  is_due now r firing = false

  -- The alert that a rule owes for the value of its metric.
  abbrev owed : ℕ → EvaluatedRule F → Option F → Option (Alert F)
  owed now r none = none
  owed now r (some value) =
      if evaluate_condition fl r.condition value && is_due now r r.state
      then some (alert_of fl r value)
      else none

  abbrev pub owed_alerts : Map F → ℕ → List (EvaluatedRule F) → List (Alert F)
  owed_alerts values now [] = []
  owed_alerts values now (r ∷ rs) =
      push_alert (owed now r (lookup r.condition.metric values)) (owed_alerts values now rs)

  condition_met-is_new :
      (s : State) (met : Bool) (now : ℕ) (r : EvaluatedRule F) (value : F)
      → r.state ≡ s
      → is_new s (condition_met_in s met now (record r { current_value = value })).state
        ≡ (met && is_due now r s)
  unfolding condition_met_in is_new
  condition_met-is_new ok true now r value e = ground arith
  condition_met-is_new pending true now r value e = ground arith
  condition_met-is_new firing true now r value e = ground arith
  condition_met-is_new ok false now r value e = ground arith
  condition_met-is_new pending false now r value e = ground arith
  condition_met-is_new firing false now r value e = ground arith

  condition_met-alert :
      (s : State) (met : Bool) (now : ℕ) (r : EvaluatedRule F) (value : F)
      → let r' = condition_met_in s met now (record r { current_value = value }) in
        alert_of fl r' r'.current_value ≡ alert_of fl r value
  unfolding condition_met_in alert_of
  condition_met-alert ok true now r value = ground arith
  condition_met-alert pending true now r value = ground arith
  condition_met-alert firing true now r value = refl
  condition_met-alert ok false now r value = refl
  condition_met-alert pending false now r value = refl
  condition_met-alert firing false now r value = refl

  evaluate_rule-owed :
      (o : Option F) (now : ℕ) (r : EvaluatedRule F) → (evaluate_rule fl o now r).1 ≡ owed now r o
  unfolding evaluate_rule condition_met
  evaluate_rule-owed none now r = refl
  evaluate_rule-owed (some value) now r =
      let met = evaluate_condition fl r.condition value in
      ap
        (λ b.
          if b
          then some (
              alert_of fl (condition_met met now (record r { current_value = value }))
                (condition_met met now (record r { current_value = value })).current_value)
          else none)
        (condition_met-is_new r.state met now r value refl)
      ∙ ap (λ a. if met && is_due now r r.state then some a else none)
          (condition_met-alert r.state met now r value)

  evaluate_rules-owed :
      (values : Map F) (now : ℕ) (rs : List (EvaluatedRule F))
      → (evaluate_rules fl values now rs).1 ≡ owed_alerts values now rs
  unfolding evaluate_rules
  evaluate_rules-owed values now [] = refl
  evaluate_rules-owed values now (r ∷ rs) = rw (
    evaluate_rule-owed (lookup r.condition.metric values) now r,
    evaluate_rules-owed values now rs,
  )

  -- An evaluation alerts exactly for the rules that are not firing yet, whose metric has a value that
  -- meets the condition, and whose duration is zero, when they were ok, or has passed since they
  -- became pending. The alerts stand in the order of the rules and carry that value.
  pub evaluate-owed_alerts :
      (ms : List (Metric F)) (now : ℕ) (e : Engine F)
      → (evaluate fl ms now e).alerts ≡ owed_alerts (put_metrics fl ms []) now e.rules
  unfolding evaluate
  evaluate-owed_alerts ms now e = evaluate_rules-owed (put_metrics fl ms []) now e.rules

abbrev OffersRule : {F : Type 0} → Option (AlertCondition F) → Type 0
OffersRule none = Unit
OffersRule (some c) = IsOffered c.operator

module _ {F : Type 0} (parse_float : String → Option F) where
  parse_condition-OffersRule :
      (s : String) → has_newline s ≡ false → OffersRule (parse_condition parse_float s)
  unfolding parse_condition
  parse_condition-OffersRule s n = let h = match_condition-Offers s n in ground (arith, h)

  module _ (fl : Floats F) (parse_duration : String → ℤ) where
    add_rule-IsOffered :
        (rc : RuleConfig) (o : Option (AlertCondition F)) (rules : List (EvaluatedRule F))
        → OffersRule o
        → All (λ r. IsOffered r.condition.operator) rules
        → All (λ r. IsOffered r.condition.operator) (add_rule fl parse_duration rc o rules)
    unfolding add_rule
    add_rule-IsOffered rc none rules h a = a
    add_rule-IsOffered rc (some c) rules h a = (h, a)

    -- No rule of an engine made from conditions on one line compares with `>=` or `<=`.
    pub new_engine-IsOffered :
        (rcs : List RuleConfig)
        → All (λ rc. has_newline rc.condition ≡ false) rcs
        → All
            (λ r. IsOffered r.condition.operator)
            (new_engine fl parse_float parse_duration rcs).rules
    unfolding new_engine new_rules
    new_engine-IsOffered [] h = tt
    new_engine-IsOffered (rc ∷ rcs) (h, hs) =
        add_rule-IsOffered rc (parse_condition parse_float rc.condition)
          (new_rules fl parse_float parse_duration rcs) (parse_condition-OffersRule rc.condition h)
          (new_engine-IsOffered rcs hs)
