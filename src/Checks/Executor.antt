-- ===== src/Checks/Executor.antt =====
-- internal/checker/executor.go and registry.go: a request's items, one after the other. A checker is
-- what it answers to its parameters; the texts of messages and the time that passes are parameters.
use nodeagentx.Prelude.{
  ℕ, suc, String, Option, none, some, Bool, true, false, List, [], ◌∷◌, ◌++◌, map, ◌==◌,
  if◌then◌else◌, ◌>>=◌,
}
use nodeagentx.Prelude.Maps.{Map, lookup, insert}
use nodeagentx.Prelude.Text.{join}
use nodeagentx.Checks.Types.{
  status_error, CheckSeverity, CheckResult, ProtoResult, CheckSummary, to_proto_result,
  build_summary,
}

-- What Check returns: an error, or a result, which may be nil.
pub data Answer : Type 0 where
  check_failed : String → Answer
  answered : Option CheckResult → Answer

pub record CheckItem (J : Type 0) : Type 0 where
  pub id : String
  pub item_type : String
  pub name : String
  pub params : J
  pub severity : CheckSeverity

pub record HealthCheckResult : Type 0 where
  pub request_id : String
  pub results : List ProtoResult
  pub summary : Option CheckSummary
  pub completed : Bool

abbrev pub Checker : Type 0 → Type 0
Checker J = J → Answer

abbrev pub intermediate : String → CheckResult → HealthCheckResult
intermediate request r = record {
  request_id = request;
  results = to_proto_result r ∷ [];
  summary = none;
  completed = false;
}

abbrev pub final : String → ℕ → List CheckResult → HealthCheckResult
final request total_duration rs = record {
  request_id = request;
  results = map to_proto_result rs;
  summary = some (build_summary rs total_duration);
  completed = true;
}

module _ {J : Type 0} where
  -- checkers[c.Type()] = c, and the lookup.
  unfoldable pub register_checker : String → Checker J → Map (Checker J) → Map (Checker J)
  register_checker kind c checkers = insert kind c checkers

  unfoldable pub get_checker : String → Map (Checker J) → Option (Checker J)
  get_checker kind checkers = lookup kind checkers

  -- The result of an item that no checker could do.
  abbrev pub error_result : CheckItem J → String → ℕ → CheckResult
  error_result item message elapsed = record {
    item_id = item.id;
    check_type = item.item_type;
    name = item.name;
    status = status_error;
    actual_value = "";
    expected_value = "";
    message = message;
    remediation = "";
    severity = item.severity;
    duration = elapsed;
  }

  -- The names of the item are written over those of the checker's result.
  abbrev pub named_result : CheckItem J → ℕ → CheckResult → CheckResult
  named_result item elapsed r = record r {
    item_id = item.id;
    check_type = item.item_type;
    name = item.name;
    duration = if r.duration == 0 then elapsed else r.duration;
  }

  unfoldable pub result_of : CheckItem J → ℕ → Answer → Option CheckResult
  result_of item elapsed (check_failed e) =
      some (error_result item (join "check execution error: " e) elapsed)
  result_of item elapsed (answered none) = none
  result_of item elapsed (answered (some r)) = some (named_result item elapsed r)

  -- `none` is the panic on a nil result without an error.
  unfoldable pub execute_one : Map (Checker J) → ℕ → CheckItem J → Option CheckResult
  unfolding result_of
  execute_one checkers elapsed item = elim (get_checker item.item_type checkers) [
    | none ↦ some (error_result item (join "unknown checker type: " item.item_type) elapsed)
    | some check ↦ result_of item elapsed (check item.params)
  ]

  -- The loop, with the time that the i-th item takes.
  unfoldable pub execute_items :
      Map (Checker J) → (ℕ → ℕ) → ℕ → List (CheckItem J) → Option (List CheckResult)
  unfolding execute_one
  execute_items checkers time i [] = some []
  execute_items checkers time i (item ∷ items) = execute_one checkers (time i) item >>= λ r.
      execute_items checkers time (suc i) items >>= λ rs. some (r ∷ rs)

  -- Execute: the messages that the callback is given.
  unfoldable pub execute :
      Map (Checker J) → (ℕ → ℕ) → ℕ → String → List (CheckItem J) → Option (List HealthCheckResult)
  unfolding execute_items
  execute checkers time total_duration request items = execute_items checkers time 0 items >>= λ rs.
      some (map (intermediate request) rs ++ final request total_duration rs ∷ [])
