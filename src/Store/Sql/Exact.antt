-- ===== src/Store/Sql/Exact.antt =====
-- internal/store/postgres.go and mysql.go: when a search gives results, and which.
use go_rdap_server.Base.{◌≡◌, ◌↔◌, none, List, map, ok, err, Result, ◌>>=◌, GoString, str, ◌++◌, ℤ}
use go_rdap_server.Domain.{Domain, Contact, NameServer}
use go_rdap_server.Store.Interface.{Interface}
use go_rdap_server.Store.Sql.{
  Decoder, Cursor, Reads, DomainRow, ContactRow, NameserverRow, as_error, labelled, scan_rows,
  pattern_to_sql,
}
use go_rdap_server.Store.Sql.Searches.{scan_rows_iff}
use go_rdap_server.Store.Sql.Postgres
use go_rdap_server.Store.Sql.Postgres.Backend.{postgres_interface}
use go_rdap_server.Store.Sql.MySql
use go_rdap_server.Store.Sql.MySql.Backend.{mysql_interface}
use go_rdap_server.Store.Sql.IpRange.{Prefix}

-- The statement gives a cursor, each of its rows scans, to the results in their order, and it ends
-- without an error.
abbrev pub Gives :
    {R A : Type 0}
    → (Result GoString R → Result GoString A)
    → Result GoString (Cursor R)
    → List A
    → Type 0
Gives scan (err e) xs = ⊥
Gives scan (ok cursor) xs = (map scan cursor.rows ≡ map ok xs) × (cursor.last ≡ none)

as_error_iff : {A : Type 0} (r : Result GoString A) (a : A) → (as_error r ≡ ok a) ↔ (r ≡ ok a)
as_error_iff (err e) a = (λ h. cc h, λ h. cc h)
as_error_iff (ok x) a = (λ h. cc h, λ h. cc h)

searched_iff :
    {R A : Type 0} (prefix : GoString) (scan : Result GoString R → Result GoString A)
    (r : Result GoString (Cursor R)) (xs : List A)
    → (as_error (labelled prefix r >>= λ found. scan_rows scan found.rows found.last) ≡ ok xs)
      ↔ Gives scan r xs
searched_iff prefix scan (err e) xs = (λ h. cc h, λ h. absurd h)
searched_iff prefix scan (ok cursor) xs =
    let rows = scan_rows_iff scan cursor.rows cursor.last xs in
    let texts = as_error_iff (scan_rows scan cursor.rows cursor.last) xs in
    (λ h. rows.0 (texts.0 h), λ h. texts.1 (rows.1 h))

-- Each search of the store gives these results exactly if its statement does.
pub record IsExact (reads : Reads) (domain : Result GoString DomainRow → Result GoString Domain)
    (contact : Result GoString ContactRow → Result GoString Contact)
    (nameserver : Result GoString NameserverRow → Result GoString NameServer) (i : Interface)
    : Type 0 where
  pub domains_by_name :
      (q : GoString) (limit : ℤ) (xs : List Domain)
      → (i.search_domains_by_name q limit ≡ ok xs)
        ↔ Gives domain (reads.domains_like (pattern_to_sql q) limit) xs
  pub domains_by_ns :
      (q : GoString) (limit : ℤ) (xs : List Domain)
      → (i.search_domains_by_ns q limit ≡ ok xs) ↔ Gives domain (reads.domains_of_host q limit) xs
  pub contacts_by_name :
      (q : GoString) (limit : ℤ) (xs : List Contact)
      → (i.search_contacts_by_name q limit ≡ ok xs)
        ↔ Gives contact (reads.entities_like (str "%" ++ pattern_to_sql q ++ str "%") limit) xs
  pub contacts_by_handle :
      (q : GoString) (limit : ℤ) (xs : List Contact)
      → (i.search_contacts_by_handle q limit ≡ ok xs)
        ↔ Gives contact (reads.entity_handles_like (pattern_to_sql q) limit) xs
  pub nameservers_by_name :
      (q : GoString) (limit : ℤ) (xs : List NameServer)
      → (i.search_nameservers_by_name q limit ≡ ok xs)
        ↔ Gives nameserver (reads.hosts_like (pattern_to_sql q) limit) xs
  pub nameservers_by_ip :
      (q : GoString) (limit : ℤ) (xs : List NameServer)
      → (i.search_nameservers_by_ip q limit ≡ ok xs)
        ↔ Gives nameserver (reads.hosts_with_address (str "[\"" ++ q ++ str "\"]") limit) xs

module _ (decode : Decoder) (quoted : GoString → GoString)
    (parse_prefix : GoString → Result GoString Prefix) where
  -- Each search of either SQL store gives results exactly if the database answers its statement,
  -- every row scans and the cursor ends without an error, and then it gives what the rows scan to,
  -- in their order.
  pub interfaces-IsExact :
      (pool : Postgres.Pool) (db : MySql.Database)
      → IsExact pool.reads
          (Postgres.scan_domain_row decode)
          (Postgres.scan_contact_row decode)
          (Postgres.scan_nameserver_row decode)
          (postgres_interface decode pool)
        × IsExact db.reads
            (MySql.scan_mysql_domain_row decode)
            (MySql.scan_mysql_contact_row decode)
            (MySql.scan_mysql_nameserver_row decode)
            (mysql_interface decode quoted parse_prefix db)
  unfolding postgres_interface Postgres.search_domains_by_name Postgres.search_domains_by_ns
      Postgres.search_contacts_by_name Postgres.search_contacts_by_handle
      Postgres.search_nameservers_by_name Postgres.search_nameservers_by_ip mysql_interface
      MySql.search_domains_by_name MySql.search_domains_by_ns MySql.search_contacts_by_name
      MySql.search_contacts_by_handle MySql.search_nameservers_by_name
      MySql.search_nameservers_by_ip MySql.scan_mysql_domain_rows MySql.scan_mysql_contact_rows
      MySql.scan_mysql_nameserver_rows
  interfaces-IsExact pool db = (
    record {
      domains_by_name = λ q limit xs. searched_iff (str "search domains: ") _ _ xs;
      domains_by_ns = λ q limit xs. searched_iff (str "search domains by NS: ") _ _ xs;
      contacts_by_name = λ q limit xs. searched_iff (str "search entities: ") _ _ xs;
      contacts_by_handle = λ q limit xs. searched_iff (str "search entities by handle: ") _ _ xs;
      nameservers_by_name = λ q limit xs. searched_iff (str "search nameservers: ") _ _ xs;
      nameservers_by_ip = λ q limit xs. searched_iff (str "search nameservers by IP: ") _ _ xs;
    },
    record {
      domains_by_name = λ q limit xs. searched_iff (str "search domains: ") _ _ xs;
      domains_by_ns = λ q limit xs. searched_iff (str "search domains by NS: ") _ _ xs;
      contacts_by_name = λ q limit xs. searched_iff (str "search entities: ") _ _ xs;
      contacts_by_handle = λ q limit xs. searched_iff (str "search entities by handle: ") _ _ xs;
      nameservers_by_name = λ q limit xs. searched_iff (str "search nameservers: ") _ _ xs;
      nameservers_by_ip = λ q limit xs. searched_iff (str "search nameservers by IP: ") _ _ xs;
    },
  )
