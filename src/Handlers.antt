-- ===== src/Handlers.antt =====
-- internal/handlers/handlers.go and response.go: requests, responses, and what handlers share.
-- A response is its status and the value that is encoded as JSON.
pub mod Lookups
pub mod Searches
pub mod Routes
pub mod Bounds
pub mod Status
pub mod Unsupported
use go_rdap_server.Base.{
  ℕ, Bool, true, false, not, ◌&&◌, ◌||◌, Option, none, some, List, [], ◌∷◌, ◌++◌, if◌then◌else◌,
  Result, ok, err, GoString, str, str_eq, Unicode, equal_fold, ℤ, pos, is_positive, int_leb, int_eq,
  atoi, show_int,
}
use go_rdap_server.Config.{RdapConfig, RateConfig, AuthConfig}
use go_rdap_server.Rdap.Models.{Domain, Notice}
use go_rdap_server.Rdap.Responses.{
  Help, EntityResponse, NameserverResponse, IpNetworkResponse, AutnumResponse, ErrorResponse,
  DomainSearchResult, EntitySearchResult, NameserverSearchResult,
}
use go_rdap_server.Rdap.Names.{Idna}
use go_rdap_server.Rdap.Notices.{NoticeOptions, new_notices_with_icann}
use go_rdap_server.Rdap.Conformance.{new_conformance}
use go_rdap_server.Service.Queries.{Service, Library}
use go_rdap_server.Service.Extensions.{notice_options_from_config}

pub record Handler : Type 0 where
  pub svc : Service
  pub cfg : RdapConfig
  pub port : ℤ
  pub rate : RateConfig
  pub auth : AuthConfig

-- What the handlers read of an *http.Request. `param` is the one parameter of the route's pattern,
-- and `query` is r.URL.Query().Get.
pub record Request : Type 0 where
  pub param : GoString
  pub query : GoString → GoString
  pub tls : Bool
  pub forwarded_proto : GoString
  pub host : GoString
  pub path : GoString
  pub raw_query : GoString

-- What the handlers use of the packages net, net/netip, net/url and time.
pub record Platform : Type 0 where
  pub library : Library
  pub idna : Idna
  pub has_port : GoString → Bool
  pub join_host_port : GoString → GoString → GoString
  pub url_string : (scheme host path raw_query : GoString) → GoString
  pub is_prefix : GoString → Bool
  pub is_addr : GoString → Bool
  pub show_duration : ℤ → GoString

pub data Body : Type 0 where
  help : Help → Body
  domain : Domain → Body
  entity : EntityResponse → Body
  nameserver : NameserverResponse → Body
  ip_network : IpNetworkResponse → Body
  autnum : AutnumResponse → Body
  domains : DomainSearchResult → Body
  entities : EntitySearchResult → Body
  nameservers : NameserverSearchResult → Body
  error : ErrorResponse → Body

pub record Response : Type 0 where
  pub status : ℕ
  pub content_type : GoString
  pub body : Body

unfoldable pub write_json : ℕ → Body → Response
write_json status v = record {
  status = status;
  content_type = str "application/rdap+json";
  body = v;
}

unfoldable pub write_error : ℕ → ℕ → GoString → GoString → Response
unfolding write_json
write_error status error_code title description = write_json status (
    error (record {
      conformance = new_conformance;
      error_code = error_code;
      title = title;
      description = description ∷ [];
      notices = [];
    }))

module _ (p : Platform) (h : Handler) where
  abbrev scheme_of : Request → GoString
  scheme_of r =
      if r.tls || equal_fold p.library.unicode r.forwarded_proto (str "https")
      then str "https"
      else str "http"

  abbrev default_port : GoString → Bool
  default_port scheme =
      (str_eq scheme (str "http") && int_eq h.port (pos 80))
      || (str_eq scheme (str "https") && int_eq h.port (pos 443))

  unfoldable pub request_url : Request → GoString
  request_url r =
      let scheme = scheme_of r in
      let host =
        if p.has_port r.host
        then r.host
        else if default_port scheme
        then r.host
        else p.join_host_port r.host (show_int h.port) in
      p.url_string scheme host r.path r.raw_query

  abbrev pub notice_opts : Option NoticeOptions
  notice_opts = some (notice_options_from_config h.cfg)

  abbrev pub icann_notices : Request → List Notice
  icann_notices r = new_notices_with_icann (request_url r) h.cfg.base_url notice_opts

abbrev pub limit_up_to : ℤ → Option ℤ → ℤ
limit_up_to maximum none = maximum
limit_up_to maximum (some parsed) =
    if is_positive parsed && int_leb parsed maximum then parsed else maximum

-- The limit of a search: `limit` of the query if it is a number from 1 to the configured maximum.
unfoldable pub search_limit : ℤ → GoString → ℤ
search_limit maximum l = if str_eq l [] then maximum else limit_up_to maximum (atoi l)
