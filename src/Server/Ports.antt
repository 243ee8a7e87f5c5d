-- ===== src/Server/Ports.antt =====
-- middleware.go: rateLimitMiddleware knows a visitor by r.RemoteAddr, which is a host with a port.
use nodeagentx.Prelude.{
  ℕ, ◌-◌, String, Bool, true, false, none, some, List, [], ◌∷◌, any, ltb, str_eq, ◌≡◌, refl, ap,
  ◌∙◌, Bool-cases, inl, inr, arith, eq_iff, subst, sym, if◌then◌else◌,
}
use nodeagentx.Prelude.Maps.{Map, lookup, lookup-insert}
use nodeagentx.Prelude.Text.{join}
use nodeagentx.Server.{
  Request, Writer, new_writer, Handler, Visitor, Front, evict, get_limiter, allow_visitor, serve,
  if_allowed, rate_limit_middleware,
}

-- A request from a port of the client's host at a time, or a turn of the eviction at a time.
pub data Visit : Type 0 where
  visits : ℕ → String → Request → Visit
  evicts : ℕ → Visit

-- net/http sets RemoteAddr to "host:port".
unfoldable pub address : String → String → String
unfolding join
address host port = join host (join ":" port)

abbrev pub request_from : String → String → Request → Request
request_from host port r = record r { remote_addr = address host port }

module _ {S : Type 0} (next : Handler S) (host : String) where
  -- What a client's requests get from the routes, with no middleware.
  unfoldable pub plain_run : List Visit → S → List Writer × S
  plain_run [] s = ([], s)
  plain_run (visits now port r ∷ rest) s =
      let out = next (request_from host port r) new_writer s in
      let later = plain_run rest out.2 in (out.1 ∷ later.0, later.1)
  plain_run (evicts now ∷ rest) s = plain_run rest s

module _ {L S : Type 0} (fresh : L) (allow : ℕ → L → Bool × L) (next : Handler S)
    (host : String) where
  -- What they get through the rate limit.
  unfoldable pub visit_run : List Visit → Front L S → List Writer × Front L S
  unfolding evict rate_limit_middleware serve
  visit_run [] x = ([], x)
  visit_run (visits now port r ∷ rest) x =
      let out =
        rate_limit_middleware fresh allow now (serve next) (request_from host port r) new_writer
          x in
      let later = visit_run rest out.2 in (out.1 ∷ later.0, later.1)
  visit_run (evicts now ∷ rest) x = visit_run rest (record x { visitors = evict now x.visitors })

-- No port comes twice, nor is one of those seen before.
abbrev pub IsNewEach : List String → List Visit → Type 0
IsNewEach seen [] = Unit
IsNewEach seen (visits now port r ∷ rest) =
    (any (str_eq port) seen ≡ false) × IsNewEach (port ∷ seen) rest
IsNewEach seen (evicts now ∷ rest) = IsNewEach seen rest

join-injective : (s a b : String) → join s a ≡ join s b → a ≡ b
unfolding join
join-injective String.[] a b h = h
join-injective (String.◌∷◌ c s) a b h = join-injective s a b (cc h)

address-other :
    (host port other : String)
    → str_eq other port ≡ false
    → str_eq (address host port) (address host other) ≡ false
unfolding address
address-other host port other h =
    elim (Bool-cases (str_eq (address host port) (address host other))) [
      | inr e ↦ e
      | inl e ↦
          let same =
            join-injective ":" port other
              (join-injective host (join ":" port) (join ":" other) ((eq_iff _ _).0 e)) in
          cc ((eq_iff other port).1 (sym same), h)
    ]

lookup-evict :
    {L : Type 0} (now : ℕ) (ip : String) (visitors : Map (Visitor L))
    → lookup ip visitors ≡ none
    → lookup ip (evict now visitors) ≡ none
unfolding lookup evict
lookup-evict now ip [] h = refl
lookup-evict now ip ((k, v) ∷ vs) h = elim (Bool-cases (str_eq k ip)) [
  | inl e ↦ ground (arith, e, h)
  | inr e ↦ elim (Bool-cases (ltb 600000000000 (now - v.last_seen))) [
    | inl f ↦ rw f (lookup-evict now ip vs (ground (arith, e, h)))
    | inr f ↦ rw (f, e) (lookup-evict now ip vs (ground (arith, e, h)))
  ]
]

-- The visitors of the host that are kept have been seen.
IsSeen : {L : Type 0} → String → List String → Map (Visitor L) → Type 0
IsSeen host seen visitors =
    (port : String) → any (str_eq port) seen ≡ false → lookup (address host port) visitors ≡ none

module _ {L : Type 0} (fresh : L) (allow : ℕ → L → Bool × L) where
  allow_visitor-IsSeen :
      (host : String) (now : ℕ) (port : String) (seen : List String) (visitors : Map (Visitor L))
      → IsSeen host seen visitors
      → IsSeen host (port ∷ seen) (allow_visitor fresh allow now (address host port) visitors).1
  unfolding allow_visitor IsSeen
  allow_visitor-IsSeen host now port seen visitors s other h =
      let different : str_eq other port ≡ false = ground (arith, h) in
      let kept : Visitor L = record {
        limiter = (allow now (get_limiter fresh (address host port) visitors)).1;
        last_seen = now;
      } in
      lookup-insert (address host port) (address host other) kept visitors
      ∙ (ap (λ b. if b then some kept else lookup (address host other) visitors)
            (address-other host port other different)
          ∙ s other (ground (arith, h)))

  allow_visitor-fresh :
      ((now : ℕ) → (allow now fresh).0 ≡ true)
      → (now : ℕ) (ip : String) (visitors : Map (Visitor L)) → lookup ip visitors ≡ none
      → (allow_visitor fresh allow now ip visitors).0 ≡ true
  unfolding allow_visitor get_limiter
  allow_visitor-fresh full now ip visitors h =
      subst (λ o. (allow now (elim o [ none ↦ fresh | some v ↦ v.limiter ])).0 ≡ true) (sym h)
        (full now)

module _ {L S : Type 0} where
  if_allowed-true :
      (h : Handler (Front L S)) (r : Request) (w : Writer) (x : Front L S)
      (out : Bool × Map (Visitor L))
      → out.0 ≡ true
      → if_allowed h r w x out ≡ h r w (record x { visitors = out.1 })
  unfolding if_allowed
  if_allowed-true h r w x (true, vs) ok = refl
  if_allowed-true h r w x (false, vs) ok = cc ok

  -- What the client and the routes have of a run.
  abbrev pub unlimited : List Writer × Front L S → List Writer × S
  unlimited (writers, x) = (writers, x.inner)

  module _ (fresh : L) (allow : ℕ → L → Bool × L) (next : Handler S) (host : String) where
    visit_run-IsSeen :
        ((now : ℕ) → (allow now fresh).0 ≡ true)
        → (seen : List String) (events : List Visit) (x : Front L S) → IsSeen host seen x.visitors
        → IsNewEach seen events
        → unlimited (visit_run fresh allow next host events x) ≡ plain_run next host events x.inner
    unfolding visit_run plain_run rate_limit_middleware serve IsSeen
    visit_run-IsSeen full seen [] x s new = refl
    visit_run-IsSeen full seen (visits now port r ∷ rest) x s (new, more) =
        let request = request_from host port r in
        let asked = allow_visitor fresh allow now (address host port) x.visitors in
        let x' = record x { visitors = asked.1 } in
        let served = serve next request new_writer x' in
        let let_in =
          if_allowed-true (serve next) request new_writer x asked (
            allow_visitor-fresh fresh allow full now (address host port) x.visitors (s port new)) in
        ap
          (λ o.
            let later = visit_run fresh allow next host rest o.2 in (o.1 ∷ later.0, later.1.inner))
          let_in
        ∙ ap (λ later. (served.1 ∷ later.0, later.1))
            (visit_run-IsSeen full (port ∷ seen) rest served.2
              (allow_visitor-IsSeen fresh allow host now port seen x.visitors s) more)
    visit_run-IsSeen full seen (evicts now ∷ rest) x s new =
        visit_run-IsSeen full seen rest (record x { visitors = evict now x.visitors })
          (λ port h. lookup-evict now (address host port) x.visitors (s port h)) new

    -- When a new limiter allows its first request: a client at one host that uses another port for
    -- each request is never limited. Through rateLimitMiddleware it gets what it would get without it,
    -- whatever evictions happen in between, and the routes are left in the same state.
    pub visit_run-never_limits :
        ((now : ℕ) → (allow now fresh).0 ≡ true)
        → (events : List Visit) (x : Front L S) → x.visitors ≡ []
        → IsNewEach [] events
        → unlimited (visit_run fresh allow next host events x) ≡ plain_run next host events x.inner
    unfolding IsSeen lookup
    visit_run-never_limits full events x empty new =
        visit_run-IsSeen full [] events x (λ port h. ap (λ vs. lookup (address host port) vs) empty)
          new
