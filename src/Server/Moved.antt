-- ===== src/Server/Moved.antt =====
-- reload.go with handlers.go: a reload moves the path that authentication protects, and not the
-- route.
use nodeagentx.Prelude.{
  ℕ, String, Bool, true, false, ◌≡◌, refl, Bool-cases, inl, inr, str_eq, arith, any, List, [], ◌∷◌,
  ◌++◌, ◌&&◌,
}
use text.Mathlib.TextPositions.{eq_refl}
use nodeagentx.Prelude.Text.{has_prefix}
use nodeagentx.Settings.Root.{Config}
use nodeagentx.Settings.Reloaders.{
  World, prometheus_of, prometheus_reloader, ServerPrometheus, ServerAuth,
}
use nodeagentx.Server.{
  Request, new_writer, Handler, requires_auth, security_headers, Front, allow_visitor,
  with_middleware, new_prometheus, fixed_routes, register_routes,
}
use nodeagentx.Server.Guards.{is_let_in, with_middleware-let_in}

requires_auth-other :
    (auth : ServerAuth) (p : ServerPrometheus) (path : String)
    → has_prefix path "/api/v1/" ≡ false
    → str_eq path p.path ≡ false
    → requires_auth auth p path ≡ false
unfolding requires_auth
requires_auth-other auth p path api other = elim (Bool-cases auth.enabled) [
  | inl e ↦ elim (Bool-cases (p.enabled && p.protect_with_auth)) [
    | inl f ↦ rw (e, api, f, other) refl
    | inr f ↦ rw (e, api, f) refl
  ]
  | inr e ↦ rw e refl
]

is_let_in-other :
    (auth : ServerAuth) (p : ServerPrometheus) (r : Request)
    → has_prefix r.path "/api/v1/" ≡ false
    → str_eq r.path p.path ≡ false
    → is_let_in auth p r ≡ true
unfolding is_let_in
is_let_in-other auth p r api other = rw (requires_auth-other auth p r.path api other) refl

any-last :
    {A : Type 0} (f : A → Bool) (xs : List A) (x : A) → f x ≡ true → any f (xs ++ (x ∷ [])) ≡ true
any-last f [] x h = ground (arith, h)
any-last f (y ∷ xs) x h = ground (arith, any-last f xs x h)

register_routes-path :
    (p : ServerPrometheus) → p.enabled ≡ true → any (str_eq p.path) (register_routes p) ≡ true
unfolding register_routes
register_routes-path p on = rw on (any-last (str_eq p.path) fixed_routes p.path (eq_refl p.path))

-- When the server began with an exporter on a path outside /api/v1/, and a reload of Prometheus names
-- another path: the first path is still a route, and a request for it that the limiter allows reaches
-- the routes without a token, also when authentication is enabled and protects the exporter.
pub prometheus_reloader-unprotected :
    {P L S : Type 0} (fresh : L) (allow : ℕ → L → Bool × L) (first new : Config) (w : World P)
    (next : Handler S) (now : ℕ) (r : Request) (x : Front L S)
    → let began = new_prometheus (prometheus_of first) in
      began.enabled ≡ true
      → r.path ≡ began.path
      → has_prefix r.path "/api/v1/" ≡ false
      → str_eq r.path new.prometheus.path ≡ false
      → (allow_visitor fresh allow now r.remote_addr x.visitors).0 ≡ true
      → let w' = (prometheus_reloader.apply_config new w).0 in
        (any (str_eq r.path) (register_routes began) ≡ true)
        × ((with_middleware fresh allow now w'.auth w'.prometheus next r new_writer x).2.inner
            ≡ (next r (security_headers new_writer) x.inner).2)
unfolding prometheus_reloader
prometheus_reloader-unprotected fresh allow first new w next now r x on same api other ok = (
  rw same (register_routes-path (new_prometheus (prometheus_of first)) on),
  with_middleware-let_in fresh allow w.auth (prometheus_of new) next now r x ok
      (is_let_in-other w.auth (prometheus_of new) r api other),
)
