-- ===== src/Service/Queries.antt =====
-- internal/service/service.go: the methods of Service. They call the store through its interface.
use go_rdap_server.Base.{
  Option, none, some, List, [], ◌∷◌, map, if◌then◌else◌, Result, ok, err, ◌>>=◌, GoString, str,
  Unicode, to_lower, ℤ,
}
use go_rdap_server.Domain.{Time, Assoc, lookup, Contact, NameServer, DomainAggregate}
use go_rdap_server.Domain
use go_rdap_server.Config.{RdapConfig}
use go_rdap_server.Store.Interface.{Interface, Error, reverse_search_unsupported}
use go_rdap_server.Rdap.Models.{Entity, Nameserver, IpNetwork}
use go_rdap_server.Rdap.Models
use go_rdap_server.Rdap.Responses.{ReverseSearchProperty, ReverseSearchPropertiesMapping}
use go_rdap_server.Service.Extensions.{
  Extensions, extensions_from_config, notice_options_from_config,
}
use go_rdap_server.Service.Mapping.{domain_to_rdap, entity_to_rdap, nameserver_to_rdap}
use go_rdap_server.Service.Mapping.Network.{ParsedCidr, ip_network_to_rdap}

pub record Service : Type 0 where
  pub store : Interface
  pub cfg : RdapConfig
  pub ext : Extensions

-- New
unfoldable pub new : Interface → RdapConfig → Service
new st cfg = record { store = st; cfg = cfg; ext = extensions_from_config cfg }

-- What the service uses of the packages strings, time and net.
pub record Library : Type 0 where
  pub unicode : Unicode
  pub rfc3339 : Time → GoString
  pub parse_cidr : GoString → Option ParsedCidr

-- The loop that maps the results of a search.
abbrev pub map_results : {A B : Type 0} → (A → B) → Result Error (List A) → Result Error (List B)
map_results f r = r >>= λ xs. ok (map f xs)

abbrev reverse_property : GoString → ReverseSearchProperty
reverse_property p = record {
  searchable_resource_type = str "domains";
  related_resource_type = str "entity";
  property = p;
}

-- The map `paths` of ReverseSearchMapping.
abbrev property_paths : Assoc GoString GoString
property_paths =
    (str "handle", str "$.entities[*].handle")
    ∷ (str "role", str "$.entities[*].roles")
    ∷ (str "fn", str "$.entities[*].vcardArray[1][?(@[0]=='fn')][3]")
    ∷ (str "email", str "$.entities[*].vcardArray[1][?(@[0]=='email')][3]")
    ∷ []

unfoldable pub reverse_search_mapping : List GoString → List ReverseSearchPropertiesMapping
reverse_search_mapping [] = []
reverse_search_mapping (p ∷ ps) =
    let rest = reverse_search_mapping ps in
    elim (lookup p property_paths) [
      | none ↦ rest
      | some path ↦ record { property = p; property_path = path } ∷ rest
    ]

module _ (lib : Library) (s : Service) where
  unfoldable pub domain_aggregate_to_rdap : DomainAggregate → GoString → Models.Domain
  domain_aggregate_to_rdap agg request_url =
      domain_to_rdap lib.rfc3339 agg.domain (some agg) s.cfg.base_url request_url
        s.cfg.registrar_base_url s.cfg.mode (some (notice_options_from_config s.cfg)) (some s.ext)

  unfoldable pub plain_domain_to_rdap : Domain.Domain → GoString → Models.Domain
  plain_domain_to_rdap d request_url =
      domain_to_rdap lib.rfc3339 d none s.cfg.base_url request_url s.cfg.registrar_base_url
        s.cfg.mode (some (notice_options_from_config s.cfg)) (some s.ext)

  abbrev to_entity : Contact → Entity
  to_entity c = entity_to_rdap lib.rfc3339 c s.cfg.base_url

  abbrev to_nameserver : NameServer → Nameserver
  to_nameserver ns = nameserver_to_rdap lib.rfc3339 ns s.cfg.base_url (some s.ext)

  unfoldable pub lookup_domain : GoString → GoString → Result Error Models.Domain
  unfolding domain_aggregate_to_rdap
  lookup_domain name request_url = do
    agg ← s.store.get_domain_aggregate name
    ok (domain_aggregate_to_rdap agg request_url)

  unfoldable pub lookup_entity : GoString → Result Error Entity
  lookup_entity handle = do c ← s.store.lookup_contact handle; ok (to_entity c)

  unfoldable pub lookup_nameserver : GoString → Result Error Nameserver
  lookup_nameserver name = do
    ns ← s.store.lookup_nameserver (to_lower lib.unicode name)
    ok (to_nameserver ns)

  unfoldable pub lookup_ip_network : GoString → Result Error IpNetwork
  lookup_ip_network cidr = do
    n ← s.store.lookup_ip_network cidr
    ok (ip_network_to_rdap lib.parse_cidr lib.rfc3339 n s.cfg.base_url (some s.ext))

  unfoldable pub search_domains_by_name :
      GoString → ℤ → GoString → Result Error (List Models.Domain)
  unfolding plain_domain_to_rdap
  search_domains_by_name pattern limit request_url =
      map_results (λ d. plain_domain_to_rdap d request_url)
        (s.store.search_domains_by_name pattern limit)

  unfoldable pub search_domains_by_ns : GoString → ℤ → GoString → Result Error (List Models.Domain)
  unfolding plain_domain_to_rdap
  search_domains_by_ns ns_name limit request_url =
      map_results (λ d. plain_domain_to_rdap d request_url)
        (s.store.search_domains_by_ns ns_name limit)

  unfoldable pub search_entities_by_name : GoString → ℤ → Result Error (List Entity)
  search_entities_by_name pattern limit =
      map_results to_entity (s.store.search_contacts_by_name pattern limit)

  unfoldable pub search_entities_by_handle : GoString → ℤ → Result Error (List Entity)
  search_entities_by_handle pattern limit =
      map_results to_entity (s.store.search_contacts_by_handle pattern limit)

  unfoldable pub search_nameservers_by_name : GoString → ℤ → Result Error (List Nameserver)
  search_nameservers_by_name pattern limit =
      map_results to_nameserver (s.store.search_nameservers_by_name pattern limit)

  unfoldable pub search_nameservers_by_ip : GoString → ℤ → Result Error (List Nameserver)
  search_nameservers_by_ip ip limit =
      map_results to_nameserver (s.store.search_nameservers_by_ip ip limit)

  unfoldable pub reverse_search_domains_by_entity :
      GoString → GoString → ℤ → GoString → Result Error (List Models.Domain)
  unfolding plain_domain_to_rdap
  reverse_search_domains_by_entity property pattern limit request_url =
      if s.ext.reverse_search
      then map_results (λ d. plain_domain_to_rdap d request_url)
          (s.store.reverse_search_domains_by_entity property pattern limit)
      else err reverse_search_unsupported

unfoldable pub reverse_search_properties : Service → List ReverseSearchProperty
reverse_search_properties s =
    if s.ext.reverse_search
    then reverse_property (str "handle")
      ∷ reverse_property (str "role")
      ∷ reverse_property (str "fn")
      ∷ reverse_property (str "email")
      ∷ []
    else []
