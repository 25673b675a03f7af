-- ===== src/Handlers/Lookups.antt =====
-- internal/handlers/handlers.go: the help response and the lookups.
use go_rdap_server.Base.{
  ℕ, Bool, true, false, not, Option, none, some, List, [], ◌∷◌, ◌++◌, if◌then◌else◌, Result, ok,
  err, GoString, str, str_eq, contains_byte, pos, decimal, parse_uint32,
}
use go_rdap_server.Config.{AuthConfig, extensions_enabled}
use go_rdap_server.Store.Interface.{Error}
use go_rdap_server.Rdap.Models
use go_rdap_server.Rdap.Models.{Conformance, common, nil}
use go_rdap_server.Rdap.Responses.{Farv1Provider, Help, AutnumResponse}
use go_rdap_server.Rdap.Names.{normalize_domain_name}
use go_rdap_server.Rdap.Notices.{RateLimitInfo, new_help}
use go_rdap_server.Rdap.Conformance.{new_conformance, with_extensions}
use go_rdap_server.Service.Mapping.{plain_header}
use go_rdap_server.Service.Queries
use go_rdap_server.Service.Queries.{reverse_search_properties}
use go_rdap_server.Handlers.{
  Handler, Request, Platform, Response, write_json, write_error, request_url, notice_opts,
  icann_notices, help, domain, entity, nameserver, ip_network, autnum,
}

unfoldable pub farv1_providers : AuthConfig → List Farv1Provider
farv1_providers auth =
    if str_eq auth.issuer []
    then []
    else record { iss = auth.issuer; name = auth.issuer; default = true } ∷ []

abbrev pub add_extension : Bool → GoString → Conformance → Conformance
add_extension on id c = if on then with_extensions c (id ∷ []) else c

module _ (p : Platform) (h : Handler) where
  abbrev rate_info : RateLimitInfo
  rate_info =
      if h.rate.enabled
      then record {
        enabled = true;
        requests = h.rate.requests;
        window = h.rate.window;
        burst = h.rate.burst;
      }
      else record { enabled = false; requests = pos 0; window = pos 0; burst = pos 0 }

  abbrev with_reverse_search : Help → Help
  with_reverse_search x =
      if extensions_enabled h.cfg (str "reverse_search")
      then record x {
        reverse_search_properties = reverse_search_properties h.svc;
        conformance = with_extensions x.conformance (str "reverse_search" ∷ []);
      }
      else x

  abbrev with_farv1 : Help → Help
  with_farv1 x =
      if h.auth.enabled
      then record x {
        farv1_open_idc_configuration = some (record {
          session_client_supported = false;
          token_client_supported = true;
          dnt_supported = false;
          provider_discovery_supported = false;
          issuer_identifier_supported = not (str_eq h.auth.issuer []);
          implicit_token_refresh_supported = false;
          open_idc_providers = farv1_providers h.auth;
        });
        conformance = with_extensions x.conformance (str "farv1" ∷ []);
      }
      else x

  unfoldable pub help_response : Help
  help_response = with_farv1 (
      with_reverse_search
        (new_help p.show_duration h.cfg.base_url (notice_opts p h) rate_info h.cfg.search_enabled))

  unfoldable pub help_handler : Request → Response
  unfolding help_response
  help_handler r = write_json 200 (help help_response)

  abbrev found_domain : GoString → Result Error Models.Domain → Response
  found_domain name (err e) =
      write_error 404 404 (str "Domain not found") (str "No domain found for: " ++ name)
  found_domain name (ok d) = write_json 200 (domain d)

  unfoldable pub lookup_domain : Request → Response
  lookup_domain r =
      if str_eq r.param []
      then write_error 400 400 (str "Invalid domain name") (str "Domain name parameter is required")
      else elim (normalize_domain_name p.library.unicode p.idna r.param) [
        | err e ↦ write_error 400 400 (str "Invalid domain name") e
        | ok (ldh_name, unicode_name) ↦
            found_domain r.param
              (Queries.lookup_domain p.library h.svc ldh_name (request_url p h r))
      ]

  unfoldable pub lookup_entity : Request → Response
  lookup_entity r =
      if str_eq r.param []
      then write_error 400 400 (str "Invalid entity handle")
          (str "Entity handle parameter is required")
      else elim (Queries.lookup_entity p.library h.svc r.param) [
        | err e ↦
            write_error 404 404 (str "Entity not found")
              (str "No entity found for handle: " ++ r.param)
        | ok e ↦ write_json 200 (
            entity
              (record { entity = e; conformance = new_conformance; notices = icann_notices p h r }))
      ]

  unfoldable pub lookup_nameserver : Request → Response
  lookup_nameserver r =
      if str_eq r.param []
      then write_error 400 400 (str "Invalid nameserver name")
          (str "Nameserver name parameter is required")
      else elim (Queries.lookup_nameserver p.library h.svc r.param) [
        | err e ↦
            write_error 404 404 (str "Nameserver not found")
              (str "No nameserver found for: " ++ r.param)
        | ok ns ↦ write_json 200 (
            nameserver (record {
              nameserver = ns;
              conformance =
                  add_extension (extensions_enabled h.cfg (str "ttl0")) (str "ttl0")
                    new_conformance;
              notices = icann_notices p h r;
            }))
      ]

  unfoldable pub ip_network_conformance : Conformance
  ip_network_conformance =
      add_extension (extensions_enabled h.cfg (str "cidr0")) (str "cidr0")
        (add_extension (extensions_enabled h.cfg (str "geofeed1")) (str "geofeed1") new_conformance)

  -- A prefix stands as it is, an address becomes the prefix of its full length.
  unfoldable pub network_key : GoString → Option GoString
  network_key network =
      if p.is_prefix network
      then some network
      else if p.is_addr network
      then some (network ++ (if contains_byte b':' network then str "/128" else str "/32"))
      else none

  unfoldable pub lookup_ip_network : Request → Response
  unfolding network_key ip_network_conformance
  lookup_ip_network r =
      if str_eq r.param []
      then write_error 400 400 (str "Invalid network") (str "Network parameter is required")
      else elim (network_key r.param) [
        | none ↦
            write_error 400 400 (str "Invalid network")
              (str "Must be a valid IP address or CIDR notation")
        | some network ↦ elim (Queries.lookup_ip_network p.library h.svc network) [
          | err e ↦
              write_error 404 404 (str "IP network not found")
                (str "No IP network found for: " ++ network)
          | ok n ↦ write_json 200 (
              ip_network (record {
                ip_network = n;
                conformance = ip_network_conformance;
                notices = icann_notices p h r;
              }))
        ]
      ]

  unfoldable pub autnum_response : Request → ℕ → AutnumResponse
  autnum_response r asn = record {
    autnum = record {
      common =
          common (plain_header (str "autnum") (str "AS" ++ decimal asn) (str "active" ∷ []) [] [])
            nil;
      start_autnum = asn;
      end_autnum = asn;
      name = str "AS" ++ decimal asn;
      kind = [];
      country = [];
    };
    conformance = new_conformance;
    notices = icann_notices p h r;
  }

  unfoldable pub lookup_autnum : Request → Response
  unfolding autnum_response
  lookup_autnum r =
      if str_eq r.param []
      then write_error 400 400 (str "Invalid ASN") (str "ASN parameter is required")
      else elim (parse_uint32 r.param) [
        | none ↦
            write_error 400 400 (str "Invalid ASN")
              (str "ASN must be a valid 32-bit unsigned integer")
        | some asn ↦ write_json 200 (autnum (autnum_response r asn))
      ]
