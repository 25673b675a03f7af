-- ===== src/Store/Sql/Postgres/Backend.antt =====
-- internal/store/postgres.go: the lookup of a network, and the store as a storage backend.
use go_rdap_server.Base.{List, [], GoString, str, Result}
use go_rdap_server.Domain.{IpNetwork}
use go_rdap_server.Store.Interface.{Interface, Error}
use go_rdap_server.Store.Rows.{parse_status}
use go_rdap_server.Store.Sql.{NetworkRow, Decoder, labelled, as_error, map_ok, row_metadata}
use go_rdap_server.Store.Sql.Postgres.{
  Pool, lookup_domain, get_domain_aggregate, lookup_contact, lookup_nameserver, lookup_autnum,
  search_domains_by_name, search_domains_by_ns, search_contacts_by_name, search_contacts_by_handle,
  search_nameservers_by_name, search_nameservers_by_ip, reverse_search_domains_by_entity,
}

module _ (decode : Decoder) where
  unfoldable pub network_of : NetworkRow (List GoString) → IpNetwork
  unfolding parse_status
  network_of r = record {
    handle = r.handle;
    start_address = r.start_address;
    end_address = r.end_address;
    ip_version = r.ip_version;
    cidr = r.cidr;
    name = r.name;
    kind = r.kind;
    country = r.country;
    status = parse_status (decode.statuses r.status);
    parent_handle = [];
    metadata = row_metadata (str "postgres") r.created r.updated;
  }

  module _ (pool : Pool) where
    unfoldable pub lookup_ip_network : GoString → Result Error IpNetwork
    unfolding network_of
    lookup_ip_network cidr =
        as_error (map_ok network_of (labelled (str "IP network lookup: ") (pool.network_row cidr)))

    unfoldable pub postgres_interface : Interface
    postgres_interface = record {
      lookup_domain = lookup_domain decode pool;
      get_domain_aggregate = get_domain_aggregate decode pool;
      lookup_contact = lookup_contact decode pool;
      lookup_nameserver = lookup_nameserver decode pool;
      lookup_ip_network = lookup_ip_network;
      lookup_autnum = lookup_autnum decode pool;
      search_domains_by_name = search_domains_by_name decode pool;
      search_domains_by_ns = search_domains_by_ns decode pool;
      search_contacts_by_name = search_contacts_by_name decode pool;
      search_contacts_by_handle = search_contacts_by_handle decode pool;
      search_nameservers_by_name = search_nameservers_by_name decode pool;
      search_nameservers_by_ip = search_nameservers_by_ip decode pool;
      reverse_search_domains_by_entity = reverse_search_domains_by_entity decode pool;
    }
