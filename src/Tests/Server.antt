-- ===== src/Tests/Server.antt =====
-- Requests to a server with a token, where a limiter has twenty requests left and never gains any.
use nodeagentx.Prelude.{
  ℕ, ◌-◌, Bool, true, some, suc, List, [], ◌∷◌, any, ltb, str_eq, ◌≡◌, refl, if◌then◌else◌,
}
use nodeagentx.Prelude.Maps.{lookup}
use nodeagentx.Prelude.Text.{
  is_empty, is_white, trim_left, trim_right, trim_space, has_prefix, join,
}
use nodeagentx.Settings.Root.{Config}
use nodeagentx.Settings.Reloaders.{
  ServerAuth, ServerPrometheus, World, prometheus_of, prometheus_reloader,
}
use nodeagentx.Server.{
  Request, new_writer, returned, Handler, is_authorized, Front, get_limiter, allow_visitor,
  with_middleware, new_prometheus, register_routes,
}
use nodeagentx.Server.Guards.{with_middleware-kept_out}
use nodeagentx.Server.Moved.{prometheus_reloader-unprotected}
use nodeagentx.Server.Ports.{
  visits, evicts, Visit, visit_run, plain_run, unlimited, visit_run-never_limits,
}
use nodeagentx.Tests.Settings.{hub, hub_with, collector_of}

abbrev burst : ℕ → ℕ → Bool × ℕ
burst now left = (ltb 0 left, left - 1)

-- The routes count the requests.
abbrev count_request : Handler ℕ
count_request r w n = (returned, w, suc n)

abbrev exec_request : Request
exec_request = record {
  path = "/api/v1/exec";
  authorization = " Bearer guess";
  remote_addr = "10.0.0.7:4001";
}

abbrev idle : Front ℕ ℕ
idle = record { visitors = []; handled = []; panics = 0; inner = 0 }

abbrev token : ServerAuth
token = record { enabled = true; bearer_token = "0123456789abcdef0123456789abcdef" }

abbrev exporter : ServerPrometheus
exporter = record { enabled = true; path = "/metrics"; protect_with_auth = true }

with_middleware-kept_out_example :
    let out =
      with_middleware 20 burst 5 token exporter count_request exec_request new_writer idle in
    (out.2.inner ≡ 0)
    × (out.1.status ≡ some (if (allow_visitor 20 burst 5 "10.0.0.7:4001" []).0 then 401 else 429))
unfolding is_authorized trim_space trim_left trim_right is_white is_empty join has_prefix
with_middleware-kept_out_example =
    with_middleware-kept_out 20 burst token exporter count_request 5 exec_request idle refl refl
      refl

abbrev moved : Config
moved =
    hub_with (record { enabled = true; bearer_token = token.bearer_token }) "/exporter"
      (collector_of [])

abbrev running : World Unit
running = record { pipeline = tt; auth = token; prometheus = prometheus_of hub }

abbrev scrape : Request
scrape = record { path = "/metrics"; authorization = ""; remote_addr = "10.0.0.8:4001" }

prometheus_reloader-unprotected_example :
    let w = (prometheus_reloader.apply_config moved running).0 in
    (any (str_eq "/metrics") (register_routes (new_prometheus (prometheus_of hub))) ≡ true)
    × ((with_middleware 20 burst 5 w.auth w.prometheus count_request scrape new_writer idle).2.inner
        ≡ 1)
unfolding prometheus_reloader new_prometheus has_prefix is_empty allow_visitor get_limiter lookup
prometheus_reloader-unprotected_example =
    prometheus_reloader-unprotected 20 burst hub moved running count_request 5 scrape idle refl refl
      refl refl refl

abbrev visiting : List Visit
visiting =
    visits 1 "4001" exec_request
    ∷ visits 2 "4002" exec_request
    ∷ evicts 900000000000
    ∷ visits 900000000001 "4003" exec_request
    ∷ []

-- Each request finds a bucket with one request left.
visit_run-never_limits_example :
    unlimited (visit_run 1 burst count_request "10.0.0.7" visiting idle)
    ≡ plain_run count_request "10.0.0.7" visiting 0
visit_run-never_limits_example =
    visit_run-never_limits 1 burst count_request "10.0.0.7" (λ now. refl) visiting idle refl
      (refl, (refl, (refl, tt)))
