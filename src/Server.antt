-- ===== src/Server.antt =====
-- internal/server/server.go: the chain of middleware in front of the handlers, in its order. The
-- request id, the compression, the log, the time limit and the metrics of the packages that it uses
-- do not choose the response and are left out. CORS answers a preflight request (OPTIONS) itself, in
-- front of the limiter and the token: a request here is one that CORS hands on. The rate limiter
-- (httprate) is a parameter: `allow` is its answer for a remote address. The recovery answers a
-- panic with an internal error.
pub mod Gate
pub mod Chain
pub mod Http
use go_rdap_server.Base.{
  ℕ, Bool, true, false, not, ◌&&◌, List, if◌then◌else◌, Result, GoString, str, Unicode,
}
use go_rdap_server.Config.{Config}
use go_rdap_server.Middleware.ClientIp
use go_rdap_server.Middleware.ClientIp.{Net, resolve_client}
use go_rdap_server.Auth.Tokens
use go_rdap_server.Middleware.Bearer.{Verdict, pass, panicked, authenticate}
use go_rdap_server.Handlers
use go_rdap_server.Handlers.{Handler, Platform, Response}
use go_rdap_server.Handlers.Routes.{Endpoint, handle}

-- A request, as the chain reads it: the connection's address and headers, and the handlers' part.
pub record Request : Type 0 where
  pub client : ClientIp.Request
  pub authorization : GoString
  pub http : Handlers.Request

pub data Outcome : Type 0 where
  too_many_requests : Outcome
  unauthorized : (error description : GoString) → Outcome
  handled : Response → Outcome
  internal_error : Outcome

module _ {Ip IpNet : Type 0} (net : Net Ip IpNet) (allow : GoString → Bool)
    (validate : GoString → Tokens.Outcome) (p : Platform) where
  abbrev after_auth : Handler → Endpoint → Request → Verdict → Outcome
  after_auth h e r (Verdict.unauthorized error description) = unauthorized error description
  after_auth h e r panicked = internal_error
  after_auth h e r (pass claims) = handled (handle p h e r.http)

  -- The remote address that the rate limiter sees.
  unfoldable pub limited_addr : Config → Request → GoString
  limited_addr cfg r =
      let (client, ip) = resolve_client p.library.unicode net cfg.rate.trusted_ips r.client in
      client.remote_addr

  unfoldable pub serve : Config → Handler → Endpoint → Request → Outcome
  unfolding limited_addr
  serve cfg h e r =
      if cfg.rate.enabled && not (allow (limited_addr cfg r))
      then too_many_requests
      else if cfg.auth.enabled
      then after_auth h e r (authenticate validate r.authorization)
      else handled (handle p h e r.http)
