-- ===== src/Server/Guards.antt =====
-- middleware.go: which requests reach the routes.
use nodeagentx.Prelude.{
  ℕ, String, Bool, true, false, not, ◌&&◌, ◌||◌, some, if◌then◌else◌, ◌≡◌, refl, Bool-cases, inl,
  inr, ◌∙◌, ap, arith, str_eq,
}
use nodeagentx.Prelude.Maps.{Map}
use nodeagentx.Prelude.Text.{has_prefix}
use nodeagentx.Settings.Reloaders.{ServerAuth, ServerPrometheus}
use nodeagentx.Server.{
  Request, Writer, new_writer, set_header, write_header, write_json, write_error, Ending, returned,
  panicked, Handler, requires_auth, is_authorized, auth_middleware, security_headers,
  security_headers_middleware, Visitor, Front, serve, log_handled, logging_middleware, recovered,
  recover_middleware, allow_visitor, if_allowed, rate_limit_middleware, with_middleware,
}

-- Whether a request may pass authentication.
unfoldable pub is_let_in : ServerAuth → ServerPrometheus → Request → Bool
unfolding requires_auth is_authorized
is_let_in auth prometheus r = not (requires_auth auth prometheus r.path) || is_authorized auth r

module _ {L S : Type 0} where
  recovered-inner : (out : Ending × Writer × Front L S) → (recovered out).2.inner ≡ out.2.inner
  unfolding recovered
  recovered-inner (returned, w, x) = refl
  recovered-inner (panicked, w, x) = refl

  log_handled-inner :
      (path : String) (out : Ending × Writer × Front L S)
      → (log_handled path out).2.inner ≡ out.2.inner
  unfolding log_handled
  log_handled-inner path (returned, w, x) = refl
  log_handled-inner path (panicked, w, x) = refl

  module _ (auth : ServerAuth) (prometheus : ServerPrometheus) (next : Handler S)
      (r : Request) where
    -- What the log and the authentication make of a request that the limiter let in.
    abbrev past_limiter : Front L S → Ending × Writer × Front L S
    past_limiter x = recovered (
        logging_middleware (auth_middleware auth prometheus (serve next)) r
          (security_headers new_writer) x)

    auth_middleware-let_in :
        (w : Writer) (x : Front L S)
        → is_let_in auth prometheus r ≡ true
        → auth_middleware auth prometheus (serve next) r w x ≡ serve next r w x
    unfolding auth_middleware is_let_in
    auth_middleware-let_in w x h = elim (Bool-cases (requires_auth auth prometheus r.path)) [
      | inl e ↦ elim (Bool-cases (is_authorized auth r)) [
        | inl f ↦ rw (e, f) refl
        | inr f ↦ ground (arith, e, f, h)
      ]
      | inr e ↦ rw e refl
    ]

    past_limiter-let_in :
        (x : Front L S)
        → is_let_in auth prometheus r ≡ true
        → (past_limiter x).2.inner ≡ (next r (security_headers new_writer) x.inner).2
    unfolding logging_middleware serve
    past_limiter-let_in x h =
        let out = auth_middleware auth prometheus (serve next) r (security_headers new_writer) x in
        recovered-inner (log_handled r.path out)
        ∙ (log_handled-inner r.path out
            ∙ ap (λ o. o.2.inner) (auth_middleware-let_in (security_headers new_writer) x h))

    past_limiter-kept_out :
        (x : Front L S)
        → is_let_in auth prometheus r ≡ false
        → ((past_limiter x).2.inner ≡ x.inner) × ((past_limiter x).1.status ≡ some 401)
    unfolding logging_middleware auth_middleware recovered log_handled write_json write_error
        set_header write_header security_headers new_writer is_let_in
    past_limiter-kept_out x h = elim (Bool-cases (requires_auth auth prometheus r.path)) [
      | inl e ↦ elim (Bool-cases (is_authorized auth r)) [
        | inl f ↦ ground (arith, e, f, h)
        | inr f ↦ elim (Bool-cases (prometheus.enabled && str_eq r.path prometheus.path)) [
          | inl g ↦ rw (e, f, g) (refl, refl)
          | inr g ↦ rw (e, f, g) (refl, refl)
        ]
      ]
      | inr e ↦ ground (arith, e, h)
    ]

    if_allowed-let_in :
        (x : Front L S) (out : Bool × Map (Visitor L))
        → out.0 ≡ true
        → is_let_in auth prometheus r ≡ true
        → (recovered (
            if_allowed
              (logging_middleware (auth_middleware auth prometheus (serve next)))
              r
              (security_headers new_writer)
              x
              out)).2.inner
          ≡ (next r (security_headers new_writer) x.inner).2
    unfolding if_allowed
    if_allowed-let_in x (true, vs) ok h = past_limiter-let_in (record x { visitors = vs }) h
    if_allowed-let_in x (false, vs) ok h = cc ok

    if_allowed-kept_out :
        (x : Front L S) (out : Bool × Map (Visitor L))
        → is_let_in auth prometheus r ≡ false
        → let o = recovered (
            if_allowed
              (logging_middleware (auth_middleware auth prometheus (serve next)))
              r
              (security_headers new_writer)
              x
              out) in
          (o.2.inner ≡ x.inner) × (o.1.status ≡ some (if out.0 then 401 else 429))
    unfolding if_allowed recovered write_json set_header write_header security_headers new_writer
    if_allowed-kept_out x (true, vs) h = past_limiter-kept_out (record x { visitors = vs }) h
    if_allowed-kept_out x (false, vs) h = (refl, refl)

-- The routes of the API, and the exporter where it is to be protected.
abbrev pub is_protected : ServerPrometheus → String → Bool
is_protected prometheus path =
    has_prefix path "/api/v1/"
    || (prometheus.enabled && prometheus.protect_with_auth && str_eq path prometheus.path)

requires_auth-protected :
    (auth : ServerAuth) (prometheus : ServerPrometheus) (path : String)
    → auth.enabled ≡ true
    → is_protected prometheus path ≡ true
    → requires_auth auth prometheus path ≡ true
unfolding requires_auth
requires_auth-protected auth prometheus path on h = elim (Bool-cases (has_prefix path "/api/v1/")) [
  | inl e ↦ rw (on, e) refl
  | inr e ↦ ground (arith, on, e, h)
]

module _ {L S : Type 0} (fresh : L) (allow : ℕ → L → Bool × L) where
  -- A request that the limiter allows and that needs no authentication, or has the token, reaches
  -- the routes.
  pub with_middleware-let_in :
      (auth : ServerAuth) (prometheus : ServerPrometheus) (next : Handler S) (now : ℕ) (r : Request)
      (x : Front L S)
      → (allow_visitor fresh allow now r.remote_addr x.visitors).0 ≡ true
      → is_let_in auth prometheus r ≡ true
      → (with_middleware fresh allow now auth prometheus next r new_writer x).2.inner
        ≡ (next r (security_headers new_writer) x.inner).2
  unfolding with_middleware recover_middleware security_headers_middleware rate_limit_middleware
  with_middleware-let_in auth prometheus next now r x ok h =
      if_allowed-let_in auth prometheus next r x
        (allow_visitor fresh allow now r.remote_addr x.visitors) ok h

  -- Whatever the routes do: when authentication is enabled, a request without the token for the API or
  -- the protected exporter does not change their state. It is answered with 401, or with 429 when the limiter does not allow it.
  pub with_middleware-kept_out :
      (auth : ServerAuth) (prometheus : ServerPrometheus) (next : Handler S) (now : ℕ) (r : Request)
      (x : Front L S)
      → auth.enabled ≡ true
      → is_protected prometheus r.path ≡ true
      → is_authorized auth r ≡ false
      → let out = with_middleware fresh allow now auth prometheus next r new_writer x in
        (out.2.inner ≡ x.inner)
        × (out.1.status
            ≡ some
                (if (allow_visitor fresh allow now r.remote_addr x.visitors).0 then 401 else 429))
  unfolding with_middleware recover_middleware security_headers_middleware rate_limit_middleware
      is_let_in
  with_middleware-kept_out auth prometheus next now r x on protected lacks =
      if_allowed-kept_out auth prometheus next r x
        (allow_visitor fresh allow now r.remote_addr x.visitors)
        (rw (requires_auth-protected auth prometheus r.path on protected, lacks) refl)
