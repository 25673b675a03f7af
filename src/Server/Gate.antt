-- ===== src/Server/Gate.antt =====
-- What a request has passed when a handler answers it.
use go_rdap_server.Base.{
  ◌⊎◌, ◌≡◌, refl, true, false, arith, GoString, str, ◌++◌, ◌≢◌, [], Bool-cases, inl, inr, Bool,
}
use go_rdap_server.Config.{Config}
use go_rdap_server.Auth.Tokens
use go_rdap_server.Auth.Tokens.{Claims, accepted}
use go_rdap_server.Middleware.ClientIp.{Net, peer_ip, parse_cidrs}
use go_rdap_server.Middleware.ClientIp.Spoofing.{IsTrusted, headers_ignored}
use go_rdap_server.Middleware.Bearer.Laws.{authenticate-pass_iff}
use go_rdap_server.Middleware.Bearer.{Verdict, pass, panicked, authenticate}
use go_rdap_server.Handlers.{Handler, Platform, Response}
use go_rdap_server.Handlers.Routes.{Endpoint, handle}
use go_rdap_server.Server.{Request, handled, after_auth, limited_addr, serve}

module _ {Ip IpNet : Type 0} (net : Net Ip IpNet) (allow : GoString → Bool)
    (validate : GoString → Tokens.Outcome) (p : Platform) where
  after_auth_sound :
      (h : Handler) (e : Endpoint) (r : Request) (resp : Response) (v : Verdict)
      → after_auth net allow validate p h e r v ≡ handled resp
      → (claims : Claims) × (v ≡ pass claims)
  after_auth_sound h e r resp (Verdict.unauthorized error description) q = cc
  after_auth_sound h e r resp panicked q = cc
  after_auth_sound h e r resp (pass claims) q = (claims, refl)

  -- A request that a handler answers has passed the gates: authentication is off, or the request
  -- carried a bearer token that is accepted; rate limiting is off, or the limiter allowed the
  -- address that was resolved for it. The response is the handler's.
  pub handled_sound :
      (cfg : Config) (h : Handler) (e : Endpoint) (r : Request) (resp : Response)
      → serve net allow validate p cfg h e r ≡ handled resp
      → (resp ≡ handle p h e r.http)
        × ((cfg.auth.enabled ≡ false)
            ⊎ ((token : GoString) × (claims : Claims) × (r.authorization ≡ str "Bearer " ++ token)
                × (token ≢ [])
                × (validate token ≡ accepted claims)))
        × ((cfg.rate.enabled ≡ false) ⊎ (allow (limited_addr net allow validate p cfg r) ≡ true))
  unfolding serve
  handled_sound cfg h e r resp q = (
    ground arith,
    elim (Bool-cases cfg.auth.enabled) [
      | inr off ↦ inl off
      | inl on ↦
          let (claims, passed) =
            after_auth_sound h e r resp (authenticate validate r.authorization) (ground arith) in
          let (token, shape, some_token, valid) =
            (authenticate-pass_iff validate r.authorization claims).0 passed in
          inr (token, claims, shape, some_token, valid)
    ],
    ground arith,
  )

  -- The address that the rate limiter counts does not depend on the forwarding headers of a request
  -- whose peer is not trusted: two such requests from one connection address count for the same.
  pub limited_addr-untrusted :
      (cfg : Config) (r r' : Request)
      → ¬ IsTrusted p.library.unicode net
          (parse_cidrs p.library.unicode net cfg.rate.trusted_ips)
          (peer_ip p.library.unicode net r.client.remote_addr)
      → r'.client.remote_addr ≡ r.client.remote_addr
      → limited_addr net allow validate p cfg r' ≡ limited_addr net allow validate p cfg r
  unfolding limited_addr
  limited_addr-untrusted cfg r r' h e =
      (headers_ignored p.library.unicode net cfg.rate.trusted_ips r.client r'.client h e).2

  -- A request is answered by its handler if authentication is off or it carries a bearer token that
  -- is accepted, and rate limiting is off or the limiter allows the address that was resolved.
  pub handled_complete :
      (cfg : Config) (h : Handler) (e : Endpoint) (r : Request)
      → (cfg.auth.enabled ≡ false)
        ⊎ ((token : GoString) × (claims : Claims) × (r.authorization ≡ str "Bearer " ++ token)
            × (token ≢ [])
            × (validate token ≡ accepted claims))
      → (cfg.rate.enabled ≡ false) ⊎ (allow (limited_addr net allow validate p cfg r) ≡ true)
      → serve net allow validate p cfg h e r ≡ handled (handle p h e r.http)
  unfolding serve
  handled_complete cfg h e r (inl off) limited = ground (arith, off, limited)
  handled_complete cfg h e r (inr (token, claims, shape, some_token, valid)) limited =
      let passed =
        (authenticate-pass_iff validate r.authorization claims).1
          (token, shape, some_token, valid) in
      ground (arith, passed, limited, Bool-cases cfg.auth.enabled)
