-- ===== src/Tests/Registry.antt =====
-- The memory store, the searches over it and the lookups.
use go_rdap_server.Base.{
  err, ◌≢◌, to_lower, ◌≡◌, ◌↔◌, refl, true, [], ◌++◌, ok, GoString, str, str_eq, pos, ◌≤◌, arith,
  to_lower, is_ascii_text, lower_byte, trim_suffix, replace_all,
}
use go_rdap_server.Domain.{lookup, info, NameServer}
use go_rdap_server.Store.Memory.{resolve, get_domain_aggregate, lookup_nameserver, store_key}
use go_rdap_server.Store.Interface.{failure}
use go_rdap_server.Store.Memory.Aggregate.{IsSnapshot, get_domain_aggregate-IsSnapshot}
use go_rdap_server.Store.Memory.Bounded.{IsBounded, memory_interface-IsBounded}
use go_rdap_server.Store.Memory.Adapter.{memory_interface}
use go_rdap_server.Store.Memory.Limit.{searches-eq-first, first_results, matching, hits}
use go_rdap_server.Store.Memory.Related.{
  domain_matches_entity_iff, lookup_nameserver_lem, IsFor, IsRelated, EntityMatches,
}
use go_rdap_server.Store.Memory.Search.{
  compile_glob, domain_pattern, glob_source, search_domains_by_name, search_contacts_by_name,
  search_nameservers_by_name, search_nameservers_by_ip, reverse_search_domains_by_entity,
  domain_matches_entity, Matcher,
}
use go_rdap_server.Handlers.Bounds.{size, searches-size}
use go_rdap_server.Handlers.Lookups
use go_rdap_server.Handlers.Lookups.{lookup_autnum, autnum_response}
use go_rdap_server.Handlers.Searches.{
  search_domains, search_entities, search_nameservers, reverse_search_domains,
}
use go_rdap_server.Handlers.Searches.Checks.{BothOrNeither, searches-bad_request_iff}
use go_rdap_server.Domain.{Contact, IpNetwork}
use go_rdap_server.Handlers.Status.Objects.{StandsFor, lookups-status_iff}
use go_rdap_server.Handlers.Status.{HasAnswer, lookup_domain-status_iff}
use go_rdap_server.Tests.Data.{unicode, compile, store, a_b, handler, platform, http_request}

get_domain_aggregate-IsSnapshot_example :
    IsSnapshot unicode store (str "A.B.") (resolve unicode store a_b)
unfolding get_domain_aggregate store_key lookup str_eq to_lower is_ascii_text lower_byte trim_suffix
get_domain_aggregate-IsSnapshot_example =
    get_domain_aggregate-IsSnapshot unicode store (str "A.B.") (resolve unicode store a_b) refl

memory_interface-IsBounded_example : IsBounded (memory_interface unicode compile store)
memory_interface-IsBounded_example = memory_interface-IsBounded unicode compile store

abbrev is_ns : Matcher
is_ns s = str_eq (str "^" ++ s ++ str "$") (str "^ns$")

searches-eq-first_example :
    (search_domains_by_name unicode store compile (str "ns") (pos 1)
      ≡ ok (first_results (pos 1) (matching (λ d. is_ns d.ldh_name) store.domains)))
    × (search_contacts_by_name unicode store compile (str "ns") (pos 1)
        ≡ ok (
            first_results
              (pos 1)
              (matching (λ e. is_ns (to_lower unicode (info e).handle)) store.contacts)))
    × (search_nameservers_by_name unicode store compile (str "ns") (pos 1)
        ≡ ok (first_results (pos 1) (matching (λ n. is_ns n.ldh_name) store.nameservers)))
    × (reverse_search_domains_by_entity unicode store compile (str "fn") (str "ns") (pos 1)
        ≡ ok (
            first_results
              (pos 1)
              (matching (domain_matches_entity unicode store (str "fn") is_ns) store.domains)))
    × (search_nameservers_by_ip unicode store compile (str "192.0.2.1") (pos 1)
        ≡ ok (first_results (pos 1) (hits (str "192.0.2.1") store.nameservers)))
unfolding compile_glob domain_pattern glob_source to_lower is_ascii_text lower_byte replace_all
searches-eq-first_example =
    searches-eq-first unicode store compile (str "ns") (str "fn") (str "192.0.2.1") (pos 1) is_ns
      is_ns refl refl

domain_matches_entity_iff_example :
    (domain_matches_entity unicode store (str "handle") is_ns a_b ≡ true)
    ↔ ((h : GoString) × IsRelated a_b h × EntityMatches unicode store (str "handle") is_ns h)
domain_matches_entity_iff_example = domain_matches_entity_iff unicode store (str "handle") is_ns a_b

lookup_nameserver_lem_example :
    ((n : NameServer)
      → lookup_nameserver unicode store (str "ns") ≡ ok n
      → IsFor unicode store (str "ns") n)
    × ((lookup_nameserver unicode store (str "ns")
          ≡ err (failure (str "nameserver not found: " ++ store_key unicode (str "ns"))))
        ↔ ((n : NameServer) → ¬ IsFor unicode store (str "ns") n))
    × (((n : NameServer) × IsFor unicode store (str "ns") n)
        → (n : NameServer) × (lookup_nameserver unicode store (str "ns") ≡ ok n))
lookup_nameserver_lem_example = lookup_nameserver_lem unicode store (str "ns")

searches-size_example :
    (size (search_domains platform handler (http_request [] (str "a.b"))).body ≤ 10)
    × (size (search_entities platform handler (http_request [] (str "a.b"))).body ≤ 10)
    × (size (search_nameservers platform handler (http_request [] (str "a.b"))).body ≤ 10)
    × (size (reverse_search_domains platform handler (http_request [] (str "a.b"))).body ≤ 10)
searches-size_example =
    searches-size platform handler 10 (memory_interface-IsBounded unicode compile store)
      (omega arith) refl (http_request [] (str "a.b"))

lookup_domain-status_iff_example :
    ((Lookups.lookup_domain platform handler (http_request (str "a.b") [])).status ≡ 200)
    ↔ HasAnswer platform handler (http_request (str "a.b") [])
lookup_domain-status_iff_example =
    lookup_domain-status_iff platform handler (http_request (str "a.b") [])

searches-bad_request_iff_example :
    (((search_domains platform handler (http_request [] (str "a.b"))).status ≡ 400)
      ↔ BothOrNeither (str "a.b") [])
    × (((search_entities platform handler (http_request [] (str "a.b"))).status ≡ 400)
        ↔ BothOrNeither [] [])
    × (((search_nameservers platform handler (http_request [] (str "a.b"))).status ≡ 400)
        ↔ BothOrNeither (str "a.b") [])
unfolding str_eq
searches-bad_request_iff_example =
    searches-bad_request_iff platform handler (http_request [] (str "a.b"))

lookups-status_iff_example :
    (((Lookups.lookup_entity platform handler (http_request (str "R1") [])).status ≡ 200)
      ↔ ((str "R1" ≢ []) × (x : Contact) × (handler.svc.store.lookup_contact (str "R1") ≡ ok x)))
    × (((Lookups.lookup_nameserver platform handler (http_request (str "R1") [])).status ≡ 200) ↔ (
        (str "R1" ≢ [])
        × (x : NameServer) × (handler.svc.store.lookup_nameserver (to_lower unicode (str "R1"))
            ≡ ok x)))
    × (((Lookups.lookup_ip_network platform handler (http_request (str "R1") [])).status ≡ 200) ↔ (
        (str "R1" ≢ [])
        × (key : GoString) × StandsFor platform (str "R1") key
        × (x : IpNetwork) × (handler.svc.store.lookup_ip_network key ≡ ok x)))
lookups-status_iff_example = lookups-status_iff platform handler (http_request (str "R1") [])
