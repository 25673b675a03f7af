-- ===== src/Tests/Sql.antt =====
-- The SQL stores over a small database.
use mathlib.Core.Path.{subst}
use go_rdap_server.Base.{
  ◌≡◌, ◌↔◌, refl, sym, ap, ℕ, ◌/◌, ◌-◌, ◌^◌, none, some, false, List, [], ◌∷◌, arith, Result, ok,
  err, GoString, str, pos, if◌then◌else◌, str_eq,
}
use go_rdap_server.Domain.{lookup}
use go_rdap_server.Config.{StorageConfig}
use go_rdap_server.Store.Memory.Bounded.{IsBounded}
use go_rdap_server.Store.Sql.{
  Decoder, Cursor, Reads, Session, DomainRow, ContactRow, NameserverRow, resolve, text_or_empty,
}
use go_rdap_server.Store.Sql.Postgres
use go_rdap_server.Store.Sql.Postgres.Backend.{postgres_interface}
use go_rdap_server.Store.Sql.MySql
use go_rdap_server.Store.Sql.Hosts.{IsKeyed}
use go_rdap_server.Store.Sql.Snapshot.{IsSnapshot, host, postgres_aggregate-IsSnapshot}
use go_rdap_server.Store.Sql.MySql.Backend.{mysql_interface}
use go_rdap_server.Store.Sql.Limits.{interfaces-IsBounded}
use go_rdap_server.Store.Sql.Exact.{IsExact, interfaces-IsExact}
use go_rdap_server.Store.Sql.Searches.{KeepsLimits}
use go_rdap_server.Store.Sql.Roles.{column, domain_of-contacts}
use go_rdap_server.Store.Sql.IpRange.{prefix4, prefix6, range_of, masked, big_endian}
use go_rdap_server.Store.Sql.IpRange.Blocks.{Holds, range_of-block}
use go_rdap_server.Store.Sql.IpRange.HostBits.{start_bytes, end_bit, range_of-host_bits}
use go_rdap_server.Store.Sql.Connect.{Pgx, SqlDriver, postgres, new, new_postgres_store}
use go_rdap_server.Store.Sql.Connect.Opened.{IsOpened, new-IsOpened}
use go_rdap_server.Handlers.{Handler}
use go_rdap_server.Handlers.Searches.{reverse_search_domains, predicates}
use go_rdap_server.Handlers.Unsupported.{reverse_search_domains-unsupported}
use go_rdap_server.Config.{extensions_enabled}
use go_rdap_server.Tests.Data.{platform, handler, http_request, service}

-- A decoder that finds empty arrays everywhere.
abbrev decode : Decoder
decode = record {
  statuses = λ s. some [];
  nameservers = λ s. none;
  secure_dns = λ s. none;
  card = λ s. none;
  strings = λ s. [];
  public_ids = λ s. [];
}

abbrev domain_row : DomainRow
domain_row = record {
  handle = str "D1";
  ldh_name = str "a.b";
  unicode_name = str "a.b";
  tld = str "b";
  status = str "[]";
  created = 1;
  updated = 2;
  expires = 3;
  registrant = some (str "R1");
  admin = none;
  tech = some (str "T1");
  billing = none;
  nameservers = [];
  secure_dns = [];
}

abbrev contact_row : GoString → ContactRow
contact_row handle = record {
  handle = handle;
  vcard = none;
  roles = str "[]";
  status = str "[]";
  created = 1;
  updated = 2;
  public_ids = str "[]";
}

abbrev host_row : GoString → NameserverRow
host_row handle = record {
  handle = handle;
  ldh_name = str "ns";
  unicode_name = [];
  ipv4 = str "[]";
  ipv6 = str "[]";
  status = str "[]";
  created = 1;
  updated = 2;
}

abbrev one_row : {R : Type 0} → R → Result GoString (Cursor R)
one_row r = ok (record { rows = ok r ∷ []; last = none })

-- The entity T1 is missing.
abbrev reads : Reads
reads = record {
  domain_row = λ name. ok domain_row;
  entity_row = λ h. if str_eq h (str "R1") then ok (contact_row h) else err (str "no rows");
  nameserver_row = λ name. ok (host_row (str "H1"));
  host_row = λ h. ok (host_row h);
  autnum_row = λ n. err (str "no rows");
  domains_like = λ q n. one_row domain_row;
  domains_of_host = λ q n. one_row domain_row;
  entities_like = λ q n. one_row (contact_row (str "R1"));
  entity_handles_like = λ q n. one_row (contact_row (str "R1"));
  hosts_like = λ q n. one_row (host_row (str "H1"));
  hosts_with_address = λ q n. err (str "syntax");
}

abbrev session : Session
session = record { reads = reads; commit = none }

abbrev pool : Postgres.Pool
pool = record {
  reads = reads;
  network_row = λ cidr. err (str "no rows");
  begin = ok session;
  set_isolation = λ s. none;
}

abbrev db : MySql.Database
db = record {
  reads = reads;
  network4_row = λ a b. err (str "no rows");
  network6_row = λ a b. err (str "no rows");
  begin = ok session;
}

keyed : (s : Session) → pool.begin ≡ ok s → IsKeyed (host decode s.reads)
unfolding Postgres.scan_nameserver_row Postgres.nameserver_of
keyed s e h n q =
    let same : session ≡ s = cc e in
    let found : host decode session.reads h ≡ ok n =
      subst (λ t. host decode t.reads h ≡ ok n) (sym same) q in
    let row : Postgres.nameserver_of decode (host_row h) ≡ n = cc found in
    sym (ap (λ x. x.handle) row)

postgres_aggregate-IsSnapshot_example : IsSnapshot decode pool (str "a.b") (
    resolve
      (Postgres.lookup_contact_tx decode reads)
      (host decode reads)
      (Postgres.domain_of decode domain_row))
unfolding Postgres.get_domain_aggregate Postgres.in_session Postgres.read_aggregate
    Postgres.scan_domain_row
postgres_aggregate-IsSnapshot_example =
    postgres_aggregate-IsSnapshot decode pool (str "a.b")
      (resolve (Postgres.lookup_contact_tx decode reads) (host decode reads)
        (Postgres.domain_of decode domain_row))
      keyed refl

interfaces-IsExact_example :
    IsExact reads
      (Postgres.scan_domain_row decode)
      (Postgres.scan_contact_row decode)
      (Postgres.scan_nameserver_row decode)
      (postgres_interface decode pool)
    × IsExact reads
        (MySql.scan_mysql_domain_row decode)
        (MySql.scan_mysql_contact_row decode)
        (MySql.scan_mysql_nameserver_row decode)
        (mysql_interface decode (λ s. s) (λ s. err (str "no prefix")) db)
interfaces-IsExact_example = interfaces-IsExact decode (λ s. s) (λ s. err (str "no prefix")) pool db

keeps : KeepsLimits reads
keeps = record {
  domains_like = λ q n. omega arith;
  domains_of_host = λ q n. omega arith;
  entities_like = λ q n. omega arith;
  entity_handles_like = λ q n. omega arith;
  hosts_like = λ q n. omega arith;
  hosts_with_address = λ q n. tt;
}

interfaces-IsBounded_example :
    IsBounded (postgres_interface decode pool)
    × IsBounded (mysql_interface decode (λ s. s) (λ s. err s) db)
interfaces-IsBounded_example = interfaces-IsBounded decode (λ s. s) (λ s. err s) pool db keeps keeps

domain_of-contacts_example :
    (lookup (str "technical") (Postgres.domain_of decode domain_row).contacts
      ≡ column domain_row (str "technical"))
    × ((Postgres.domain_of decode domain_row).registrar ≡ text_or_empty domain_row.registrant)
domain_of-contacts_example = domain_of-contacts decode domain_row (str "technical")

masked_24 : masked (prefix4 10 1 2 77 24) ≡ prefix4 10 1 2 0 24
unfolding masked big_endian
masked_24 = refl

-- 10.1.2.0/24 and 10.1.2.77
range_of-block_example :
    Holds (range_of (prefix4 10 1 2 0 24)) 167_838_285
    ↔ (167_838_285 / 2 ^ (32 - 24) ≡ big_endian 10 1 2 0 / 2 ^ (32 - 24))
unfolding big_endian
range_of-block_example =
    range_of-block 10 1 2 0 24 167_838_285 (omega arith) (omega arith) (omega arith) (omega arith)
      (omega arith) refl

abbrev bytes : List ℕ
bytes = 32 ∷ 1 ∷ 13 ∷ 184 ∷ 0 ∷ 0 ∷ 0 ∷ 0 ∷ 0 ∷ 0 ∷ 0 ∷ 0 ∷ 0 ∷ 0 ∷ 0 ∷ 0 ∷ []

-- 2001:db8::/32 and bit 95
range_of-host_bits_example :
    (start_bytes (range_of (prefix6 bytes 32)) ≡ bytes)
    × (end_bit 95 (range_of (prefix6 bytes 32)) ≡ 1)
range_of-host_bits_example = range_of-host_bits bytes 32 95 refl (omega arith) (omega arith)

abbrev pgx : Pgx
pgx = record {
  parse_config = λ dsn. ok (record { max_conns = pos 4; min_conns = pos 0; others = [] });
  new_pool = λ c. ok pool;
  ping = λ p. none;
}

abbrev sql : SqlDriver
sql = record {
  parse_url = λ s. err (str "bad");
  new_config = record {
    user = [];
    passwd = [];
    network = [];
    addr = [];
    db_name = [];
    params = [];
    parse_time = false;
    collation = [];
    others = [];
  };
  quoted = λ s. s;
  parse_dsn = λ s. err (str "bad");
  format_dsn = λ c. [];
  open_db = λ s. err (str "bad");
  configured = λ s d. d;
  ping = λ d. none;
}

abbrev postgres_config : StorageConfig
postgres_config = record {
  driver = str "postgres";
  dsn = str "postgres://h/rdap";
  max_open = pos 25;
  max_idle = pos 5;
  cache_ttl = [];
}

new-IsOpened_example : IsOpened pgx sql postgres_config (postgres pool)
unfolding new new_postgres_store str_eq
new-IsOpened_example = new-IsOpened pgx sql postgres_config 7 (λ s. none) (postgres pool) refl

abbrev sql_handler : Handler
sql_handler = record handler { svc = record service { store = postgres_interface decode pool } }

reverse_search_domains-unsupported_example :
    (reverse_search_domains platform sql_handler (http_request [] (str "x"))).status ≡ 400
unfolding Postgres.reverse_search_domains_by_entity postgres_interface predicates extensions_enabled
    str_eq
reverse_search_domains-unsupported_example =
    reverse_search_domains-unsupported platform sql_handler (λ property q n. refl)
      (http_request [] (str "x"))
