-- ===== src/Server.antt =====
-- internal/server: the middleware of middleware.go around the routes of handlers.go. A limiter of
-- golang.org/x/time/rate is a parameter: `fresh` is a new one, and `allow` asks it at a time in
-- nanoseconds. A request sees one version of the server's options.
pub mod Guards
pub mod Moved
pub mod Ports
use nodeagentx.Prelude.{
  ℕ, ◌-◌, String, Bool, true, false, ◌&&◌, Option, none, some, List, [], ◌∷◌, ◌++◌, ltb, str_eq,
  if◌then◌else◌, suc,
}
use nodeagentx.Prelude.Maps.{Map, lookup, insert}
use nodeagentx.Prelude.Text.{join, is_empty, trim_space, has_prefix}
use nodeagentx.Settings.Reloaders.{ServerAuth, ServerPrometheus}

pub record Request : Type 0 where
  pub path : String
  pub authorization : String
  pub remote_addr : String

-- What a handler writes: an apiResponse with an error, or any text.
pub data Chunk : Type 0 where
  api_error text : String → Chunk

-- http.ResponseWriter
pub record Writer : Type 0 where
  pub headers : Map String
  pub status : Option ℕ
  pub body : List Chunk

unfoldable pub new_writer : Writer
new_writer = record { headers = []; status = none; body = [] }

-- w.Header().Set, which has no effect once the header is written.
unfoldable pub set_header : String → String → Writer → Writer
set_header k v w = elim w.status [
  | none ↦ record w { headers = insert k v w.headers }
  | some code ↦ w
]

-- WriteHeader: only the first call counts.
unfoldable pub write_header : ℕ → Writer → Writer
write_header code w = elim w.status [ none ↦ record w { status = some code } | some first ↦ w ]

abbrev pub write_body : Chunk → Writer → Writer
write_body c w = record w { body = w.body ++ (c ∷ []) }

unfoldable pub write_json : ℕ → String → Writer → Writer
unfolding set_header write_header
write_json code error w =
    write_body (api_error error)
      (write_header code (set_header "Content-Type" "application/json" w))

-- http.Error
unfoldable pub write_error : ℕ → String → Writer → Writer
unfolding set_header write_header
write_error code error w = write_body (text error) (
    write_header code (
      set_header "X-Content-Type-Options" "nosniff"
        (set_header "Content-Type" "text/plain; charset=utf-8" w)))

-- How a handler ends.
pub data Ending : Type 0 where
  returned panicked : Ending

abbrev pub Handler : Type 0 → Type 0
Handler X = Request → Writer → X → Ending × Writer × X

unfoldable pub requires_auth : ServerAuth → ServerPrometheus → String → Bool
unfolding has_prefix
requires_auth auth prometheus path =
    if auth.enabled
    then if has_prefix path "/api/v1/"
      then true
      else prometheus.enabled && prometheus.protect_with_auth && str_eq path prometheus.path
    else false

-- The header is compared with the token.
unfoldable pub is_authorized : ServerAuth → Request → Bool
unfolding trim_space join
is_authorized auth r = str_eq (trim_space r.authorization) (join "Bearer " auth.bearer_token)

-- The headers of securityHeadersMiddleware.
unfoldable pub security_headers : Writer → Writer
unfolding set_header
security_headers w =
    set_header "Cache-Control" "no-store"
      (set_header "X-Frame-Options" "DENY" (set_header "X-Content-Type-Options" "nosniff" w))

module _ {X : Type 0} where
  unfoldable pub auth_middleware : ServerAuth → ServerPrometheus → Handler X → Handler X
  unfolding requires_auth is_authorized write_json write_error
  auth_middleware auth prometheus next r w x =
      if requires_auth auth prometheus r.path
      then if is_authorized auth r
        then next r w x
        else if prometheus.enabled && str_eq r.path prometheus.path
        then (returned, write_error 401 "unauthorized" w, x)
        else (returned, write_json 401 "unauthorized" w, x)
      else next r w x

  unfoldable pub security_headers_middleware : Handler X → Handler X
  unfolding security_headers
  security_headers_middleware next r w x = next r (security_headers w) x

pub record Visitor (L : Type 0) : Type 0 where
  pub limiter : L
  pub last_seen : ℕ

-- `handled` are the paths of the requests that are logged as handled, and `panics` counts the panics
-- that are logged.
pub record Front (L S : Type 0) : Type 0 where
  pub visitors : Map (Visitor L)
  pub handled : List String
  pub panics : ℕ
  pub inner : S

module _ {L : Type 0} where
  -- evictionLoop, once: who was not seen for ten minutes is forgotten.
  unfoldable pub evict : ℕ → Map (Visitor L) → Map (Visitor L)
  evict now [] = []
  evict now ((ip, v) ∷ visitors) =
      let rest = evict now visitors in
      if ltb 600000000000 (now - v.last_seen) then rest else (ip, v) ∷ rest

  module _ {S : Type 0} where
    -- The routes act on the inner state.
    unfoldable pub serve : Handler S → Handler (Front L S)
    serve next r w x = let (e, w', s) = next r w x.inner in (e, w', record x { inner = s })

    unfoldable pub log_handled : String → Ending × Writer × Front L S → Ending × Writer × Front L S
    log_handled path (returned, w, x) = (returned, w, record x { handled = path ∷ x.handled })
    log_handled path (panicked, w, x) = (panicked, w, x)

    unfoldable pub logging_middleware : Handler (Front L S) → Handler (Front L S)
    unfolding log_handled
    logging_middleware next r w x = log_handled r.path (next r w x)

    unfoldable pub recovered : Ending × Writer × Front L S → Ending × Writer × Front L S
    unfolding write_json
    recovered (returned, w, x) = (returned, w, x)
    recovered (panicked, w, x) =
        (returned, write_json 500 "internal server error" w, record x { panics = suc x.panics })

    unfoldable pub recover_middleware : Handler (Front L S) → Handler (Front L S)
    unfolding recovered
    recover_middleware next r w x = recovered (next r w x)

    unfoldable pub if_allowed :
        Handler (Front L S)
        → Request
        → Writer
        → Front L S
        → Bool × Map (Visitor L)
        → Ending × Writer × Front L S
    unfolding write_json
    if_allowed next r w x (true, vs) = next r w (record x { visitors = vs })
    if_allowed next r w x (false, vs) =
        (returned, write_json 429 "rate limit exceeded" w, record x { visitors = vs })

-- getLimiter
unfoldable pub get_limiter : {L : Type 0} → L → String → Map (Visitor L) → L
get_limiter fresh ip visitors = elim (lookup ip visitors) [ none ↦ fresh | some v ↦ v.limiter ]

module _ {L : Type 0} (fresh : L) (allow : ℕ → L → Bool × L) where
  -- rl.getLimiter(ip).Allow()
  unfoldable pub allow_visitor : ℕ → String → Map (Visitor L) → Bool × Map (Visitor L)
  unfolding get_limiter
  allow_visitor now ip visitors =
      let (allowed, l) = allow now (get_limiter fresh ip visitors) in
      (allowed, insert ip (record { limiter = l; last_seen = now }) visitors)

  module _ {S : Type 0} where
    -- The visitor is r.RemoteAddr.
    unfoldable pub rate_limit_middleware : ℕ → Handler (Front L S) → Handler (Front L S)
    unfolding allow_visitor if_allowed
    rate_limit_middleware now next r w x =
        if_allowed next r w x (allow_visitor now r.remote_addr x.visitors)

    unfoldable pub with_middleware :
        ℕ → ServerAuth → ServerPrometheus → Handler S → Handler (Front L S)
    unfolding recover_middleware security_headers_middleware rate_limit_middleware
        logging_middleware auth_middleware serve
    with_middleware now auth prometheus next = recover_middleware (
        security_headers_middleware (
          rate_limit_middleware now
            (logging_middleware (auth_middleware auth prometheus (serve next)))))

-- What New makes of the options.
unfoldable pub new_prometheus : ServerPrometheus → ServerPrometheus
new_prometheus p = if is_empty p.path then record p { path = "/metrics" } else p

abbrev pub fixed_routes : List String
fixed_routes =
    "/healthz" ∷ "/readyz" ∷ "/api/v1/metrics/latest" ∷ "/api/v1/exec" ∷ "/api/v1/tasks"
    ∷ "/api/v1/health/detailed" ∷ "/api/v1/config" ∷ "/api/v1/logs" ∷ "/ui/" ∷ []

-- registerRoutes: the patterns.
unfoldable pub register_routes : ServerPrometheus → List String
register_routes prometheus =
    fixed_routes ++ (if prometheus.enabled then prometheus.path ∷ [] else [])
