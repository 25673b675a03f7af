-- ===== src/Server/Http.antt =====
-- internal/server/server.go: the health check and the settings of the HTTP server;
-- internal/metrics/metrics.go: the metrics server. The page of promhttp is a parameter.
pub mod Health
use go_rdap_server.Base.{
  ℕ, Bool, true, false, not, ◌&&◌, Option, none, some, List, [], ◌∷◌, ◌++◌, if◌then◌else◌, Result,
  GoString, str, str_eq, ℤ, show_int,
}
use go_rdap_server.Config.{Config, MetricsConfig, addr}
use go_rdap_server.Middleware.ClientIp.{Net}
use go_rdap_server.Auth.Tokens
use go_rdap_server.Middleware.Bearer.{Verdict, pass, panicked, authenticate}
use go_rdap_server.Handlers.{Platform}
use go_rdap_server.Server.{Request, limited_addr}

pub record Page : Type 0 where
  pub status : ℕ
  pub content_type : GoString
  pub text : GoString

pub data PageOutcome : Type 0 where
  too_many_requests : PageOutcome
  unauthorized : (error description : GoString) → PageOutcome
  page : Page → PageOutcome
  internal_error : PageOutcome

unfoldable pub health_page : Config → Page
health_page cfg = record {
  status = 200;
  content_type = str "application/health+json";
  text = str "{\"status\":\"ok\",\"version\":\"" ++ cfg.rdap.version ++ str "\"}";
}

abbrev pub page_if : Page → Verdict → PageOutcome
page_if pg (Verdict.unauthorized error description) = unauthorized error description
page_if pg panicked = internal_error
page_if pg (pass claims) = page pg

-- The chain in front of the route /healthz is that of every route.
module _ {Ip IpNet : Type 0} (net : Net Ip IpNet) (allow : GoString → Bool)
    (validate : GoString → Tokens.Outcome) (p : Platform) where
  unfoldable pub serve_health : Config → Request → PageOutcome
  unfolding health_page
  serve_health cfg r =
      if cfg.rate.enabled && not (allow (limited_addr net allow validate p cfg r))
      then too_many_requests
      else if cfg.auth.enabled
      then page_if (health_page cfg) (authenticate validate r.authorization)
      else page (health_page cfg)

pub record HttpServer : Type 0 where
  pub addr : GoString
  pub read_timeout : ℤ
  pub write_timeout : ℤ
  pub idle_timeout : ℤ
  pub max_header_bytes : ℤ

unfoldable pub http_server : Config → HttpServer
http_server cfg = record {
  addr = addr cfg;
  read_timeout = cfg.server.read_timeout;
  write_timeout = cfg.server.write_timeout;
  idle_timeout = cfg.server.idle_timeout;
  max_header_bytes = cfg.server.max_header_bytes;
}

unfoldable pub metrics_addr : MetricsConfig → GoString
metrics_addr c = c.host ++ str ":" ++ show_int c.port

-- metrics.NewServer: the address, and the page of each path, if metrics are enabled.
unfoldable pub new_server : Page → MetricsConfig → Option (GoString × (GoString → Option Page))
unfolding metrics_addr
new_server metrics_page cfg =
    if not cfg.enabled
    then none
    else some (
      metrics_addr cfg,
      λ path.
          if str_eq path (str "/metrics")
          then some metrics_page
          else if str_eq path (str "/healthz")
          then some (record {
            status = 200;
            content_type = str "application/health+json";
            text = str "{\"status\":\"ok\"}";
          })
          else none,
    )
