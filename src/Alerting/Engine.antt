-- ===== src/Alerting/Engine.antt =====
-- internal/alerting/engine.go: rules from their configuration, and their evaluation on metrics.
-- strconv.ParseFloat and time.ParseDuration are parameters; a duration that does not parse is 0, as
-- the code discards the error. A notifier is known by a number, and what it answers is not looked at.

use nodeagentx.Prelude.{
  ℕ, zero, String, Option, none, some, List, [], ◌∷◌, ◌++◌, map, str_eq, if◌then◌else◌, ◌||◌, Bool,
  true, false,
}
use nodeagentx.Prelude.Int.{ℤ, pos}
use nodeagentx.Prelude.Maps.{Map, lookup, insert}
use nodeagentx.Prelude.Text.{join, is_empty}
use nodeagentx.Collector.Metric.{Metric, Value, int64, go_int, float64}
use nodeagentx.Alerting.Rules.{
  Floats, State, ok, firing, AlertCondition, EvaluatedRule, Alert, condition_met,
  evaluate_condition,
}
use nodeagentx.Alerting.Pattern.{parse_condition}

pub record RuleConfig : Type 0 where
  pub name : String
  pub condition : String
  pub severity : String
  pub for_text : String

pub record Engine (F : Type 0) : Type 0 where
  pub rules : List (EvaluatedRule F)
  pub notifiers : List ℕ

-- What one evaluation leaves: the engine, the new alerts, and the calls of Notify in their order.
pub record Outcome (F : Type 0) : Type 0 where
  pub engine : Engine F
  pub alerts : List (Alert F)
  pub notified : List (ℕ × Alert F)

unfoldable pub rule_duration : (String → ℤ) → String → ℤ
rule_duration parse_duration text =
    if is_empty text || str_eq text "0s" then pos zero else parse_duration text

-- rule.State == StateFiring && prevState != StateFiring
unfoldable pub is_new : State → State → Bool
is_new firing firing = false
is_new previous firing = true
is_new previous _ = false

module _ {F : Type 0} where
  unfoldable pub add_rule :
      Floats F
      → (String → ℤ)
      → RuleConfig
      → Option (AlertCondition F)
      → List (EvaluatedRule F)
      → List (EvaluatedRule F)
  add_rule fl parse_duration rc none rules = rules
  add_rule fl parse_duration rc (some cond) rules =
      record {
        name = rc.name;
        condition = cond;
        severity = rc.severity;
        duration = rule_duration parse_duration rc.for_text;
        state = ok;
        triggered_at = 0;
        current_value = fl.of_int (pos zero);
      }
      ∷ rules

  -- A rule whose condition does not parse is left out.
  unfoldable pub new_rules :
      Floats F → (String → Option F) → (String → ℤ) → List RuleConfig → List (EvaluatedRule F)
  unfolding add_rule
  new_rules fl parse_float parse_duration [] = []
  new_rules fl parse_float parse_duration (rc ∷ rcs) =
      add_rule fl parse_duration rc (parse_condition parse_float rc.condition)
        (new_rules fl parse_float parse_duration rcs)

  unfoldable pub new_engine :
      Floats F → (String → Option F) → (String → ℤ) → List RuleConfig → Engine F
  new_engine fl parse_float parse_duration rcs = record {
    rules = new_rules fl parse_float parse_duration rcs;
    notifiers = [];
  }

  unfoldable pub add_notifier : ℕ → Engine F → Engine F
  add_notifier n e = record e { notifiers = e.notifiers ++ n ∷ [] }

  unfoldable pub as_float : Floats F → Value F → Option F
  as_float fl (float64 f) = some f
  as_float fl (int64 n) = some (fl.of_int n)
  as_float fl (go_int n) = some (fl.of_int n)
  as_float fl _ = none

  -- One field of a metric. Metrics and fields of which the names agree when joined share a key.
  unfoldable pub put_value : String → Option F → Map F → Map F
  put_value key none values = values
  put_value key (some v) values = insert key v values

  unfoldable pub put_fields : Floats F → String → Map (Value F) → Map F → Map F
  unfolding put_value as_float
  put_fields fl name [] values = values
  put_fields fl name ((k, v) ∷ fields) values =
      put_fields fl name fields (put_value (join name (join "_" k)) (as_float fl v) values)

  unfoldable pub put_metrics : Floats F → List (Metric F) → Map F → Map F
  put_metrics fl [] values = values
  put_metrics fl (m ∷ ms) values = put_metrics fl ms (put_fields fl m.name m.fields values)

  unfoldable pub alert_of : Floats F → EvaluatedRule F → F → Alert F
  alert_of fl r value = record {
    name = r.name;
    state = firing;
    severity = r.severity;
    current_value = value;
    threshold = r.condition.threshold;
    message = fl.sprintf r.name r.condition.metric value r.condition.threshold;
  }

  -- The body of the loop for a rule whose metric has a value, or has none.
  unfoldable pub evaluate_rule :
      Floats F → Option F → ℕ → EvaluatedRule F → EvaluatedRule F × Option (Alert F)
  evaluate_rule fl none now r = (condition_met false now r, none)
  evaluate_rule fl (some value) now r =
      let r' =
        condition_met (evaluate_condition fl r.condition value) now
          (record r { current_value = value }) in
      (r', if is_new r.state r'.state then some (alert_of fl r' r'.current_value) else none)

  unfoldable pub push_alert : Option (Alert F) → List (Alert F) → List (Alert F)
  push_alert none alerts = alerts
  push_alert (some a) alerts = a ∷ alerts

  unfoldable pub evaluate_rules :
      Floats F → Map F → ℕ → List (EvaluatedRule F) → List (EvaluatedRule F) × List (Alert F)
  unfolding push_alert
  evaluate_rules fl values now [] = ([], [])
  evaluate_rules fl values now (r ∷ rs) =
      let (r', alert) = evaluate_rule fl (lookup r.condition.metric values) now r in
      let (rs', alerts) = evaluate_rules fl values now rs in (r' ∷ rs', push_alert alert alerts)

  unfoldable pub notify_all : List ℕ → List (Alert F) → List (ℕ × Alert F)
  notify_all notifiers [] = []
  notify_all notifiers (a ∷ later) = map (λ n. (n, a)) notifiers ++ notify_all notifiers later

  unfoldable pub evaluate : Floats F → List (Metric F) → ℕ → Engine F → Outcome F
  evaluate fl ms now e =
      let (rules, alerts) = evaluate_rules fl (put_metrics fl ms []) now e.rules in
      record {
        engine = record e { rules = rules };
        alerts = alerts;
        notified = notify_all e.notifiers alerts;
      }
