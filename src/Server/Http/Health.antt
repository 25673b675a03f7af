-- ===== src/Server/Http/Health.antt =====
-- internal/server/server.go: who gets an answer from the health check.
use go_rdap_server.Base.{◌≡◌, ◌≢◌, refl, true, arith, GoString, Bool}
use go_rdap_server.Config.{Config}
use go_rdap_server.Auth.Tokens
use go_rdap_server.Auth.Tokens.{Claims, accepted}
use go_rdap_server.Middleware.ClientIp.{Net}
use go_rdap_server.Middleware.Bearer.{Verdict, pass, panicked, authenticate}
use go_rdap_server.Handlers.{Platform}
use go_rdap_server.Server.{Request}
use go_rdap_server.Server.Http.{Page, page, page_if, health_page, serve_health}

module _ {Ip IpNet : Type 0} (net : Net Ip IpNet) (allow : GoString → Bool)
    (validate : GoString → Tokens.Outcome) (p : Platform) where
  refused :
      (pg : Page) (v : Verdict)
      → ((claims : Claims) → v ≢ pass claims)
      → (q : Page) → page_if pg v ≢ page q
  refused pg (Verdict.unauthorized error description) never q e = cc e
  refused pg panicked never q e = cc e
  refused pg (pass claims) never q e = never claims refl

  -- With authentication on, a request for the health check without a token that is accepted gets no
  -- page.
  pub serve_health-token :
      (cfg : Config) (r : Request) (q : Page)
      → cfg.auth.enabled ≡ true
      → ((claims : Claims) → authenticate validate r.authorization ≢ pass claims)
      → serve_health net allow validate p cfg r ≢ page q
  unfolding serve_health
  serve_health-token cfg r q on never =
      ground (arith, refused (health_page cfg) (authenticate validate r.authorization) never q)
