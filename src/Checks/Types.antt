-- ===== src/Checks/Types.antt =====
-- internal/checker/types.go: results of checks and their summary. The counts of a summary are int32,
-- which wrap around; a duration is a number of nanoseconds.
use nodeagentx.Prelude.{ℕ, ◌+◌, ◌/◌, ◌%◌, String, List, [], ◌∷◌, length}

-- CheckStatus is an int; `other_status` is a value that no constant names.
pub data CheckStatus : Type 0 where
  status_pass status_fail status_warn status_error status_skip : CheckStatus
  other_status : ℕ → CheckStatus

pub data CheckSeverity : Type 0 where
  severity_info severity_low severity_medium severity_high severity_critical : CheckSeverity
  other_severity : ℕ → CheckSeverity

pub data ProtoStatus : Type 0 where
  proto_pass proto_fail proto_warn proto_error proto_skip : ProtoStatus

pub data ProtoSeverity : Type 0 where
  proto_info proto_low proto_medium proto_high proto_critical : ProtoSeverity

unfoldable pub proto_status : CheckStatus → ProtoStatus
proto_status status_pass = proto_pass
proto_status status_fail = proto_fail
proto_status status_warn = proto_warn
proto_status status_error = proto_error
proto_status status_skip = proto_skip
proto_status (other_status n) = proto_error

unfoldable pub proto_severity : CheckSeverity → ProtoSeverity
proto_severity severity_info = proto_info
proto_severity severity_low = proto_low
proto_severity severity_medium = proto_medium
proto_severity severity_high = proto_high
proto_severity severity_critical = proto_critical
proto_severity (other_severity n) = proto_info

pub record CheckResult : Type 0 where
  pub item_id : String
  pub check_type : String
  pub name : String
  pub status : CheckStatus
  pub actual_value : String
  pub expected_value : String
  pub message : String
  pub remediation : String
  pub severity : CheckSeverity
  pub duration : ℕ

pub record ProtoResult : Type 0 where
  pub item_id : String
  pub check_type : String
  pub name : String
  pub status : ProtoStatus
  pub actual_value : String
  pub expected_value : String
  pub message : String
  pub remediation : String
  pub severity : ProtoSeverity
  pub duration_ms : ℕ

unfoldable pub to_proto_result : CheckResult → ProtoResult
unfolding proto_status proto_severity
to_proto_result r = record {
  item_id = r.item_id;
  check_type = r.check_type;
  name = r.name;
  status = proto_status r.status;
  actual_value = r.actual_value;
  expected_value = r.expected_value;
  message = r.message;
  remediation = r.remediation;
  severity = proto_severity r.severity;
  duration_ms = r.duration / 1_000_000;
}

pub record CheckSummary : Type 0 where
  pub total : ℕ
  pub pass : ℕ
  pub fail : ℕ
  pub warn : ℕ
  pub error : ℕ
  pub skip : ℕ
  pub total_duration_ms : ℕ

-- int32(n), as the number below 2^32 of the same bits.
abbrev pub int32 : ℕ → ℕ
int32 n = n % 4_294_967_296

-- The switch of BuildSummary.
unfoldable pub count_status : CheckStatus → CheckSummary → CheckSummary
count_status status_pass s = record s { pass = int32 (s.pass + 1) }
count_status status_fail s = record s { fail = int32 (s.fail + 1) }
count_status status_warn s = record s { warn = int32 (s.warn + 1) }
count_status status_error s = record s { error = int32 (s.error + 1) }
count_status status_skip s = record s { skip = int32 (s.skip + 1) }
count_status (other_status n) s = s

unfoldable pub count_results : List CheckResult → CheckSummary → CheckSummary
unfolding count_status
count_results [] s = s
count_results (r ∷ rs) s = count_results rs (count_status r.status s)

-- The summary before the loop.
abbrev pub summary_of : List CheckResult → ℕ → CheckSummary
summary_of results total_duration = record {
  total = int32 (length results);
  pass = 0;
  fail = 0;
  warn = 0;
  error = 0;
  skip = 0;
  total_duration_ms = total_duration / 1_000_000;
}

unfoldable pub build_summary : List CheckResult → ℕ → CheckSummary
unfolding count_results
build_summary results total_duration = count_results results (summary_of results total_duration)
