-- ===== src/Store/Interface.antt =====
-- internal/store/store.go: what the query service asks of a storage backend.
use go_rdap_server.Base.{List, GoString, str, Result, ℤ}
use go_rdap_server.Domain.{Domain, DomainAggregate, Contact, NameServer, IpNetwork, Autnum}

-- ErrReverseSearchUnsupported, or any other error with its text.
pub data Error : Type 0 where
  reverse_search_unsupported : Error
  failure : GoString → Error

-- err.Error()
abbrev pub error_text : Error → GoString
error_text reverse_search_unsupported = str "reverse search not supported by this storage backend"
error_text (failure text) = text

-- The interface without Ping and Close, which the service does not call.
pub record Interface : Type 0 where
  pub lookup_domain : GoString → Result Error Domain
  pub get_domain_aggregate : GoString → Result Error DomainAggregate
  pub lookup_contact : GoString → Result Error Contact
  pub lookup_nameserver : GoString → Result Error NameServer
  pub lookup_ip_network : GoString → Result Error IpNetwork
  pub lookup_autnum : ℤ → Result Error Autnum
  pub search_domains_by_name : GoString → ℤ → Result Error (List Domain)
  pub search_domains_by_ns : GoString → ℤ → Result Error (List Domain)
  pub search_contacts_by_name : GoString → ℤ → Result Error (List Contact)
  pub search_contacts_by_handle : GoString → ℤ → Result Error (List Contact)
  pub search_nameservers_by_name : GoString → ℤ → Result Error (List NameServer)
  pub search_nameservers_by_ip : GoString → ℤ → Result Error (List NameServer)
  pub reverse_search_domains_by_entity : GoString → GoString → ℤ → Result Error (List Domain)
