-- ===== src/Tests/Checks.antt =====
-- A request of three checks: one passes, one fails with an error, one is of an unknown type.
use nodeagentx.Prelude.{
  String, Bool, none, some, if◌then◌else◌, List, [], ◌∷◌, ◌++◌, map, ◌≡◌, arith, str_eq, true,
  false,
}
use mathlib.Core.Option.{some-injective}
use nodeagentx.Prelude.{subst}
use nodeagentx.Prelude.Maps.{Map, lookup}
use nodeagentx.Checks.Types.{CheckResult, status_pass, severity_info, severity_low, build_summary}
use nodeagentx.Checks.Executor.{
  check_failed, answered, CheckItem, Checker, get_checker, intermediate, final, execute,
}
use nodeagentx.Checks.Reports.{IsUsual, counted, execute-reports}

abbrev passes : CheckResult
passes = record {
  item_id = "";
  check_type = "";
  name = "";
  status = status_pass;
  actual_value = "1";
  expected_value = "1";
  message = "";
  remediation = "";
  severity = severity_info;
  duration = 0;
}

abbrev checkers : Map (Checker Bool)
checkers = ("disk", λ ok. if ok then answered (some passes) else check_failed "no disk") ∷ []

abbrev item : String → String → Bool → CheckItem Bool
item id kind ok = record {
  id = id;
  item_type = kind;
  name = id;
  params = ok;
  severity = severity_low;
}

abbrev disk : Checker Bool
disk ok = if ok then answered (some passes) else check_failed "no disk"

picked :
    (found : Bool) (c : Checker Bool) (j : Bool)
    → (if found then some disk else none) ≡ some c
    → IsUsual (c j)
picked true c true h = subst (λ g. IsUsual (g true)) (some-injective disk c h) tt
picked true c false h = subst (λ g. IsUsual (g false)) (some-injective disk c h) tt
picked false c j h = cc h

disk_IsUsual :
    (kind : String) (c : Checker Bool) (j : Bool)
    → get_checker kind checkers ≡ some c
    → IsUsual (c j)
unfolding get_checker lookup
disk_IsUsual kind c j h = picked (str_eq "disk" kind) c j h

abbrev request : List (CheckItem Bool)
request = item "a" "disk" true ∷ item "b" "disk" false ∷ item "c" "gpu" true ∷ []

execute-reports_example :
    (rs : List CheckResult) × (execute checkers (λ i. i) 9 "r" request
      ≡ some (map (intermediate "r") rs ++ final "r" 9 rs ∷ []))
    × (map (λ r. r.item_id) rs ≡ "a" ∷ "b" ∷ "c" ∷ [])
    × ((build_summary rs 9).total ≡ 3)
    × (counted (build_summary rs 9) ≡ 3)
execute-reports_example = execute-reports checkers (λ i. i) disk_IsUsual 9 "r" request (omega arith)
