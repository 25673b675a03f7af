-- ===== src/Handlers/Routes.antt =====
-- internal/handlers/handlers.go: RegisterRoutes, as the table of routes that it registers, and the
-- handler of each. The router (chi) chooses the row by method and path.
use go_rdap_server.Base.{Bool, List, [], ◌∷◌, if◌then◌else◌, GoString, str}
use go_rdap_server.Config.{RdapConfig}
use go_rdap_server.Handlers.{Handler, Request, Platform, Response}
use go_rdap_server.Handlers.Lookups.{
  help_handler, lookup_domain, lookup_entity, lookup_nameserver, lookup_ip_network, lookup_autnum,
}
use go_rdap_server.Handlers.Searches.{
  search_not_implemented, search_domains, search_entities, search_nameservers,
  reverse_search_domains,
}

pub data Endpoint : Type 0 where
  help domain entity nameserver ip_network autnum : Endpoint
  domains entities nameservers not_implemented reverse_search : Endpoint

pub data Method : Type 0 where
  get head : Method

pub record Route : Type 0 where
  pub method : Method
  pub pattern : GoString
  pub endpoint : Endpoint

-- r.Get and r.Head of one pattern
abbrev both : GoString → Endpoint → List Route → List Route
both pattern e more =
    record { method = get; pattern = pattern; endpoint = e }
    ∷ record { method = head; pattern = pattern; endpoint = e }
    ∷ more

abbrev search_routes : Bool → List Route → List Route
search_routes enabled more =
    if enabled
    then both (str "/domains") domains
        (both (str "/entities") entities (both (str "/nameservers") nameservers more))
    else both (str "/domains") not_implemented
        (both (str "/entities") not_implemented (both (str "/nameservers") not_implemented more))

unfoldable pub routes : RdapConfig → List Route
routes cfg = both (str "/help") help (
    record { method = get; pattern = str "/"; endpoint = help }
    ∷ both (str "/domain/{domainName}") domain (
        both (str "/entity/{handle}") entity (
          both (str "/nameserver/{name}") nameserver (
            both (str "/ip/*") ip_network (
              both (str "/autnum/{asn}") autnum (
                search_routes cfg.search_enabled
                  (both (str "/domains/reverse_search/entity") reverse_search [])))))))

unfoldable pub handle : Platform → Handler → Endpoint → Request → Response
handle p h help r = help_handler p h r
handle p h domain r = lookup_domain p h r
handle p h entity r = lookup_entity p h r
handle p h nameserver r = lookup_nameserver p h r
handle p h ip_network r = lookup_ip_network p h r
handle p h autnum r = lookup_autnum p h r
handle p h domains r = search_domains p h r
handle p h entities r = search_entities p h r
handle p h nameservers r = search_nameservers p h r
handle p h not_implemented r = search_not_implemented r
handle p h reverse_search r = reverse_search_domains p h r
