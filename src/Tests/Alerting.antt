-- ===== src/Tests/Alerting.antt =====
-- Runs of the alerting rules. Floating point numbers stand as natural numbers.
use nodeagentx.Prelude.{◌≡◌, refl, true, false, some, [], ◌∷◌, ℕ, All, ltb, leb, ◌==◌}
use nodeagentx.Prelude.Int.{pos}
use nodeagentx.Prelude.Text.{join}
use nodeagentx.Prelude.Maps.{insert, lookup}
use nodeagentx.Collector.Metric.{Metric, gauge, float64}
use nodeagentx.Alerting.Rules.{
  Floats, ok, pending, firing, greater, less, EvaluatedRule, has_waited, is_zero,
  evaluate_condition,
}
use nodeagentx.Alerting.Pattern.{
  match_condition, match_operator, match_alternative, match_threshold, match_rest, after,
  skip_spaces, is_space, has_newline,
}
use nodeagentx.Alerting.Lifecycle.{observe, streak, state-observe}
use nodeagentx.Alerting.Operators.{written, match_condition-written, IsOffered}
use nodeagentx.Alerting.Engine.{
  RuleConfig, Engine, evaluate, new_engine, put_metrics, put_fields, push_alert, alert_of,
}
use nodeagentx.Alerting.Alerts.{evaluate-owed_alerts, new_engine-IsOffered}

abbrev floats : Floats ℕ
floats = record {
  less_than = ltb;
  at_most = leb;
  equals = λ a b. a == b;
  of_int = λ n. elim n [ pos k ↦ k | _ ↦ 0 ];
  sprintf = λ name metric value threshold. name;
}

abbrev rule : EvaluatedRule ℕ
rule = record {
  name = "hot";
  condition = record { metric = "cpu_usage"; operator = greater; threshold = 80 };
  severity = "high";
  duration = pos 10;
  state = ok;
  triggered_at = 0;
  current_value = 0;
}

state-observe_example : (observe rule ((true, 25) ∷ (true, 15) ∷ (false, 9) ∷ [])).state ≡ firing
unfolding streak is_zero has_waited
state-observe_example = state-observe rule ((true, 25) ∷ (true, 15) ∷ (false, 9) ∷ []) refl

match_condition-written_example :
    match_condition (written "cpu_usage" less "80") ≡ some ("cpu_usage", less, "80")
unfolding is_space has_newline
match_condition-written_example =
    match_condition-written "cpu_usage" less "80"
      (refl, (refl, (refl, (refl, (refl, (refl, (refl, (refl, refl)))))))) tt (refl, refl)

-- The operator is read as `>`, and the rest does not parse as a number.
at_least : match_condition "cpu_usage >= 80" ≡ some ("cpu_usage", greater, "= 80")
unfolding match_condition match_operator match_alternative match_threshold match_rest after
    skip_spaces is_space has_newline
at_least = refl

abbrev waiting : EvaluatedRule ℕ
waiting = record rule { state = pending; triggered_at = 15 }

abbrev engine : Engine ℕ
engine = record { rules = waiting ∷ []; notifiers = 1 ∷ [] }

abbrev reading : Metric ℕ
reading = record {
  name = "cpu";
  tags = [];
  fields = ("usage", float64 95) ∷ [];
  timestamp = 0;
  metric_type = gauge;
}

evaluate-owed_alerts_example :
    (evaluate floats (reading ∷ []) 25 engine).alerts ≡ alert_of floats waiting 95 ∷ []
unfolding put_metrics put_fields push_alert lookup insert join has_waited evaluate_condition
evaluate-owed_alerts_example = evaluate-owed_alerts floats (reading ∷ []) 25 engine

abbrev hot : RuleConfig
hot = record { name = "hot"; condition = "cpu_usage >= 80"; severity = "high"; for_text = "10s" }

new_engine-IsOffered_example :
    All
      (λ r. IsOffered r.condition.operator)
      (new_engine floats (λ t. some 80) (λ t. pos 10) (hot ∷ [])).rules
unfolding has_newline
new_engine-IsOffered_example =
    new_engine-IsOffered (λ t. some 80) floats (λ t. pos 10) (hot ∷ []) (refl, tt)
