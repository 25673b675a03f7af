-- ===== src/Store/Memory/Adapter.antt =====
-- internal/store/memory.go: the memory store as a storage backend.
use go_rdap_server.Base.{Unicode}
use go_rdap_server.Store.Interface.{Interface}
use go_rdap_server.Store.Memory.{
  MemoryStore, lookup_domain, get_domain_aggregate, lookup_contact, lookup_nameserver,
  lookup_ip_network, lookup_autnum,
}
use go_rdap_server.Store.Memory.Search.{
  Compile, search_domains_by_name, search_domains_by_ns, search_contacts_by_name,
  search_nameservers_by_name, search_nameservers_by_ip, reverse_search_domains_by_entity,
}

unfoldable pub memory_interface : Unicode → Compile → MemoryStore → Interface
memory_interface u compile s = record {
  lookup_domain = lookup_domain u s;
  get_domain_aggregate = get_domain_aggregate u s;
  lookup_contact = lookup_contact u s;
  lookup_nameserver = lookup_nameserver u s;
  lookup_ip_network = lookup_ip_network u s;
  lookup_autnum = lookup_autnum u s;
  search_domains_by_name = search_domains_by_name u s compile;
  search_domains_by_ns = search_domains_by_ns u s compile;
  search_contacts_by_name = search_contacts_by_name u s compile;
  search_contacts_by_handle = search_contacts_by_name u s compile;
  search_nameservers_by_name = search_nameservers_by_name u s compile;
  search_nameservers_by_ip = search_nameservers_by_ip u s compile;
  reverse_search_domains_by_entity = reverse_search_domains_by_entity u s compile;
}
