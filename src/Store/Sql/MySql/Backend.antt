-- ===== src/Store/Sql/MySql/Backend.antt =====
-- internal/store/mysql.go: the lookup of a network, and the store as a storage backend.
use go_rdap_server.Base.{[], GoString, str, Result, ◌>>=◌}
use go_rdap_server.Domain.{IpNetwork}
use go_rdap_server.Store.Interface.{Interface, Error}
use go_rdap_server.Store.Rows.{parse_status}
use go_rdap_server.Store.Sql.{NetworkRow, Decoder, labelled, as_error, map_ok, row_metadata}
use go_rdap_server.Store.Sql.IpRange.{Prefix, IpRange, range4, range6, ip_range}
use go_rdap_server.Store.Sql.MySql.{
  Database, lookup_domain, get_domain_aggregate, lookup_contact, lookup_nameserver, lookup_autnum,
  search_domains_by_name, search_domains_by_ns, search_contacts_by_name, search_contacts_by_handle,
  search_nameservers_by_name, search_nameservers_by_ip, reverse_search_domains_by_entity,
}

module _ (decode : Decoder) where
  unfoldable pub network_of : NetworkRow GoString → IpNetwork
  unfolding parse_status
  network_of r = record {
    handle = r.handle;
    start_address = r.start_address;
    end_address = r.end_address;
    ip_version = r.ip_version;
    cidr = decode.strings r.cidr;
    name = r.name;
    kind = r.kind;
    country = r.country;
    status = parse_status (decode.statuses r.status);
    parent_handle = [];
    metadata = row_metadata (str "mysql") r.created r.updated;
  }

  module _ (quoted : GoString → GoString) (parse_prefix : GoString → Result GoString Prefix)
      (db : Database) where
    abbrev pub network_row : IpRange → Result GoString (NetworkRow GoString)
    network_row (range4 start end) = db.network4_row start end
    network_row (range6 start end) = db.network6_row start end

    unfoldable pub lookup_ip_network : GoString → Result Error IpNetwork
    unfolding ip_range network_of
    lookup_ip_network cidr = as_error (
        ip_range quoted parse_prefix cidr >>= λ range.
        map_ok network_of (labelled (str "IP network lookup: ") (network_row range)))

    unfoldable pub mysql_interface : Interface
    mysql_interface = record {
      lookup_domain = lookup_domain decode db;
      get_domain_aggregate = get_domain_aggregate decode db;
      lookup_contact = lookup_contact decode db;
      lookup_nameserver = lookup_nameserver decode db;
      lookup_ip_network = lookup_ip_network;
      lookup_autnum = lookup_autnum decode db;
      search_domains_by_name = search_domains_by_name decode db;
      search_domains_by_ns = search_domains_by_ns decode db;
      search_contacts_by_name = search_contacts_by_name decode db;
      search_contacts_by_handle = search_contacts_by_handle decode db;
      search_nameservers_by_name = search_nameservers_by_name decode db;
      search_nameservers_by_ip = search_nameservers_by_ip decode db;
      reverse_search_domains_by_entity = reverse_search_domains_by_entity decode db;
    }
