-- ===== src/Store/Sql/Postgres.antt =====
-- internal/store/postgres.go: the store over PostgreSQL. `Pool` is the connection pool: its answers
-- to statements, and what Begin and SET TRANSACTION ISOLATION LEVEL give.
pub mod Backend
use go_rdap_server.Base.{
  Option, none, some, List, [], ◌∷◌, ◌++◌, if◌then◌else◌, is_empty, Result, ok, err, ◌>>=◌,
  GoString, str, ℤ,
}
use go_rdap_server.Domain.{
  Domain, DomainAggregate, Contact, contact, nil, NameServer, IpNetwork, Autnum, VCard,
}
use go_rdap_server.Store.Interface.{Interface, Error, failure, reverse_search_unsupported}
use go_rdap_server.Store.Rows.{parse_status, parse_secure_dns, parse_nameservers, parse_vcard}
use go_rdap_server.Store.Sql.{
  DomainRow, ContactRow, NameserverRow, NetworkRow, AutnumRow, Decoder, Cursor, Reads, Session,
  labelled, as_error, map_ok, row_metadata, populate_domain_contacts, pattern_to_sql, scan_rows,
  resolve, committed,
}

pub record Pool : Type 0 where
  pub reads : Reads
  pub network_row : GoString → Result GoString (NetworkRow (List GoString))
  pub begin : Result GoString Session
  pub set_isolation : Session → Option GoString

module _ (decode : Decoder) where
  -- The fields that follow a Scan of a row of `domains`.
  unfoldable pub domain_of : DomainRow → Domain
  unfolding populate_domain_contacts parse_status parse_secure_dns parse_nameservers
  domain_of r = populate_domain_contacts r.registrant r.admin r.tech r.billing (record {
    handle = r.handle;
    ldh_name = r.ldh_name;
    unicode_name = r.unicode_name;
    tld = r.tld;
    status = parse_status (decode.statuses r.status);
    expires_at = r.expires;
    contacts = [];
    nameservers =
        if is_empty r.nameservers then [] else parse_nameservers (decode.nameservers r.nameservers);
    secure_dns = parse_secure_dns r.secure_dns (decode.secure_dns r.secure_dns);
    registrar = [];
    metadata = row_metadata (str "postgres") r.created r.updated;
  })

  unfoldable pub scan_domain_row : Result GoString DomainRow → Result GoString Domain
  unfolding domain_of
  scan_domain_row row = map_ok domain_of (labelled (str "scan domain: ") row)

  -- if vcardJSON != nil && *vcardJSON != "" { ... }
  abbrev pub card_of : Option GoString → Option VCard
  card_of none = none
  card_of (some raw) =
      if is_empty raw
      then none
      else (elim (decode.card raw) [ none ↦ none | some elements ↦ parse_vcard elements ])

  unfoldable pub contact_of : ContactRow → Contact
  unfolding parse_status
  contact_of r =
      contact
        (record {
          handle = r.handle;
          roles = decode.strings r.roles;
          status = parse_status (decode.statuses r.status);
          vcard = card_of r.vcard;
          public_ids = decode.public_ids r.public_ids;
          privacy = [];
          registrar_id = [];
          registrar_base_url = [];
          metadata = row_metadata (str "postgres") r.created r.updated;
        })
        nil

  unfoldable pub scan_contact_row : Result GoString ContactRow → Result GoString Contact
  unfolding contact_of
  scan_contact_row row = map_ok contact_of (labelled (str "scan entity: ") row)

  unfoldable pub nameserver_of : NameserverRow → NameServer
  unfolding parse_status
  nameserver_of r = record {
    handle = r.handle;
    ldh_name = r.ldh_name;
    unicode_name = r.unicode_name;
    ipv4 = decode.strings r.ipv4;
    ipv6 = decode.strings r.ipv6;
    status = parse_status (decode.statuses r.status);
    metadata = row_metadata (str "postgres") r.created r.updated;
  }

  unfoldable pub scan_nameserver_row : Result GoString NameserverRow → Result GoString NameServer
  unfolding nameserver_of
  scan_nameserver_row row = map_ok nameserver_of (labelled (str "scan nameserver: ") row)

  unfoldable pub autnum_of : AutnumRow → Autnum
  unfolding parse_status
  autnum_of r = record {
    handle = r.handle;
    start_asn = r.start_asn;
    end_asn = r.end_asn;
    name = r.name;
    kind = r.kind;
    country = r.country;
    status = parse_status (decode.statuses r.status);
    metadata = row_metadata (str "postgres") r.created r.updated;
  }

  unfoldable pub lookup_contact_tx : Reads → GoString → Result GoString Contact
  unfolding scan_contact_row
  lookup_contact_tx tx handle = scan_contact_row (tx.entity_row handle)

  -- The body of GetDomainAggregate from the row of the domain on.
  unfoldable pub read_aggregate : Reads → GoString → Result GoString DomainAggregate
  unfolding scan_domain_row lookup_contact_tx scan_nameserver_row resolve
  read_aggregate tx name =
      map_ok (resolve (lookup_contact_tx tx) (λ handle. scan_nameserver_row (tx.host_row handle)))
        (labelled (str "domain lookup: ") (scan_domain_row (tx.domain_row name)))

  unfoldable pub in_session : Session → GoString → Result GoString DomainAggregate
  unfolding read_aggregate
  in_session session name = read_aggregate session.reads name >>= committed session.commit

  module _ (pool : Pool) where
    unfoldable pub lookup_domain : GoString → Result Error Domain
    unfolding domain_of
    lookup_domain name =
        as_error (map_ok domain_of (labelled (str "domain lookup: ") (pool.reads.domain_row name)))

    unfoldable pub get_domain_aggregate : GoString → Result Error DomainAggregate
    unfolding in_session
    get_domain_aggregate name = as_error (elim pool.begin [
      | err e ↦ err (str "begin transaction: " ++ e)
      | ok session ↦ elim (pool.set_isolation session) [
        | some e ↦ err (str "set isolation level: " ++ e)
        | none ↦ in_session session name
      ]
    ])

    unfoldable pub lookup_contact : GoString → Result Error Contact
    unfolding contact_of
    lookup_contact handle =
        as_error
          (map_ok contact_of (labelled (str "entity lookup: ") (pool.reads.entity_row handle)))

    unfoldable pub lookup_nameserver : GoString → Result Error NameServer
    unfolding nameserver_of
    lookup_nameserver name = as_error (
        map_ok nameserver_of
          (labelled (str "nameserver lookup: ") (pool.reads.nameserver_row name)))

    unfoldable pub lookup_autnum : ℤ → Result Error Autnum
    unfolding autnum_of
    lookup_autnum asn =
        as_error (map_ok autnum_of (labelled (str "autnum lookup: ") (pool.reads.autnum_row asn)))

    unfoldable pub search_domains_by_name : GoString → ℤ → Result Error (List Domain)
    unfolding pattern_to_sql scan_domain_row scan_rows
    search_domains_by_name pattern limit = as_error (
        labelled (str "search domains: ") (pool.reads.domains_like (pattern_to_sql pattern) limit)
        >>= λ found. scan_rows scan_domain_row found.rows found.last)

    unfoldable pub search_domains_by_ns : GoString → ℤ → Result Error (List Domain)
    unfolding scan_domain_row scan_rows
    search_domains_by_ns ns_name limit = as_error (
        labelled (str "search domains by NS: ") (pool.reads.domains_of_host ns_name limit)
        >>= λ found. scan_rows scan_domain_row found.rows found.last)

    unfoldable pub search_contacts_by_name : GoString → ℤ → Result Error (List Contact)
    unfolding pattern_to_sql scan_contact_row scan_rows
    search_contacts_by_name pattern limit = as_error (
        labelled (str "search entities: ")
          (pool.reads.entities_like (str "%" ++ pattern_to_sql pattern ++ str "%") limit)
        >>= λ found. scan_rows scan_contact_row found.rows found.last)

    unfoldable pub search_contacts_by_handle : GoString → ℤ → Result Error (List Contact)
    unfolding pattern_to_sql scan_contact_row scan_rows
    search_contacts_by_handle pattern limit = as_error (
        labelled (str "search entities by handle: ")
          (pool.reads.entity_handles_like (pattern_to_sql pattern) limit)
        >>= λ found. scan_rows scan_contact_row found.rows found.last)

    unfoldable pub search_nameservers_by_name : GoString → ℤ → Result Error (List NameServer)
    unfolding pattern_to_sql scan_nameserver_row scan_rows
    search_nameservers_by_name pattern limit = as_error (
        labelled (str "search nameservers: ") (pool.reads.hosts_like (pattern_to_sql pattern) limit)
        >>= λ found. scan_rows scan_nameserver_row found.rows found.last)

    unfoldable pub search_nameservers_by_ip : GoString → ℤ → Result Error (List NameServer)
    unfolding scan_nameserver_row scan_rows
    search_nameservers_by_ip ip limit = as_error (
        labelled (str "search nameservers by IP: ")
          (pool.reads.hosts_with_address (str "[\"" ++ ip ++ str "\"]") limit)
        >>= λ found. scan_rows scan_nameserver_row found.rows found.last)

    unfoldable pub reverse_search_domains_by_entity :
        GoString → GoString → ℤ → Result Error (List Domain)
    reverse_search_domains_by_entity property pattern limit = err reverse_search_unsupported
