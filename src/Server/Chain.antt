-- ===== src/Server/Chain.antt =====
-- internal/server/server.go: the middleware in the order in which New registers it. What the
-- middleware of other packages does to the response (request ids, compression, CORS headers, the
-- time limit) and to the log is left out, so each of those hands the request on as it is; a request
-- here is none that CORS answers itself (a preflight request). A panic is the outcome
-- `internal_error`, which Recoverer answers.
use go_rdap_server.Base.{
  ◌≡◌, refl, ap, Bool, List, [], ◌∷◌, ◌++◌, arith, if◌then◌else◌, GoString, Bool-cases, inl, inr,
}
use go_rdap_server.Config.{Config}
use go_rdap_server.Auth.Tokens
use go_rdap_server.Middleware.ClientIp.{Net, resolve_client}
use go_rdap_server.Middleware.Bearer.{Verdict, pass, panicked, authenticate}
use go_rdap_server.Handlers.{Handler, Platform}
use go_rdap_server.Handlers.Routes.{Endpoint, handle}
use go_rdap_server.Server.{
  Request, Outcome, too_many_requests, unauthorized, handled, internal_error, limited_addr, serve,
  after_auth,
}

pub data Middleware : Type 0 where
  request_id compress trusted_proxy_client_ip logger recoverer timeout cors : Middleware
  limit_by_ip rdap_content_type security_headers bearer_token metrics : Middleware

-- The calls of r.Use.
unfoldable pub chain : Config → List Middleware
chain cfg =
    request_id
    ∷ compress
    ∷ trusted_proxy_client_ip
    ∷ logger
    ∷ recoverer
    ∷ timeout
    ∷ cors
    ∷ ((if cfg.rate.enabled then limit_by_ip ∷ [] else [])
        ++ rdap_content_type
          ∷ security_headers
          ∷ ((if cfg.auth.enabled then bearer_token ∷ [] else []) ++ metrics ∷ []))

module _ {Ip IpNet : Type 0} (net : Net Ip IpNet) (allow : GoString → Bool)
    (validate : GoString → Tokens.Outcome) (p : Platform) (cfg : Config) where
  abbrev pub when_passed : (Request → Outcome) → Request → Verdict → Outcome
  when_passed next r (Verdict.unauthorized error description) = unauthorized error description
  when_passed next r panicked = internal_error
  when_passed next r (pass claims) = next r

  -- A middleware as a handler in front of the next one.
  unfoldable pub wrap : Middleware → (Request → Outcome) → Request → Outcome
  wrap trusted_proxy_client_ip next r =
      let (client, ip) = resolve_client p.library.unicode net cfg.rate.trusted_ips r.client in
      next (record r { client = client })
  wrap limit_by_ip next r = if allow r.client.remote_addr then next r else too_many_requests
  wrap bearer_token next r = when_passed next r (authenticate validate r.authorization)
  wrap m next r = next r

  -- The first of the list is the outermost.
  unfoldable pub through : List Middleware → (Request → Outcome) → Request → Outcome
  unfolding wrap
  through [] next = next
  through (m ∷ ms) next = wrap m (through ms next)

  passed-after_auth :
      (h : Handler) (e : Endpoint) (r q : Request) (v : Verdict)
      → q.http ≡ r.http
      → when_passed (λ x. handled (handle p h e x.http)) q v
        ≡ after_auth net allow validate p h e r v
  passed-after_auth h e r q (Verdict.unauthorized error description) same = refl
  passed-after_auth h e r q panicked same = refl
  passed-after_auth h e r q (pass claims) same = ap (λ x. handled (handle p h e x)) same

  -- The chain that New registers, in its order, in front of the handler of a route answers every
  -- request as `serve` does.
  pub through-chain :
      (h : Handler) (e : Endpoint) (r : Request)
      → through (chain cfg) (λ q. handled (handle p h e q.http)) r
        ≡ serve net allow validate p cfg h e r
  unfolding through chain wrap serve limited_addr
  through-chain h e r =
      let client = (resolve_client p.library.unicode net cfg.rate.trusted_ips r.client).0 in
      let inner =
        passed-after_auth h e r (record r { client = client })
          (authenticate validate r.authorization) refl in
      elim (Bool-cases cfg.rate.enabled) [
        | inl limited ↦ elim (Bool-cases cfg.auth.enabled) [
          | inl on ↦ rw (limited, on, chain, serve) (ground (arith, inner))
          | inr off ↦ rw (limited, off, chain, serve) (ground arith)
        ]
        | inr free ↦ elim (Bool-cases cfg.auth.enabled) [
          | inl on ↦ rw (free, on, chain, serve) inner
          | inr off ↦ rw (free, off, chain, serve) refl
        ]
      ]
