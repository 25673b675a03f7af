-- ===== src/Store/Sql/Agreement.antt =====
-- internal/store/postgres.go and mysql.go: the two stores over the same rows.
use go_rdap_server.Base.{
  ◌≡◌, refl, ap, ◌∙◌, Option, none, some, List, [], ◌∷◌, map, inl, inr, Result, ok, err, ◌>>=◌,
  GoString, str, ◌++◌, ℤ, Result-cases,
}
use go_rdap_server.Domain.{Domain, DomainAggregate, Contact, NameServer}
use go_rdap_server.Store.Interface.{Error}
use go_rdap_server.Store.Sql.{
  Decoder, Cursor, DomainRow, ContactRow, NameserverRow, AutnumRow, populate_domain_contacts,
  as_error, map_ok, labelled, committed, resolve, Session, scan_rows, pattern_to_sql,
}
use go_rdap_server.Store.Sql.Postgres
use go_rdap_server.Store.Sql.MySql
use go_rdap_server.Store.Sql.Stamps.{
  stamp_domain, stamp_contact, stamp_nameserver, stamp_autnum, stamp_aggregate, resolve-Same,
}

abbrev pub Same : {A : Type 0} → (A → A) → Result Error A → Result Error A → Type 0
Same stamp r s = r ≡ map_ok stamp s

module _ (decode : Decoder) (pool : Postgres.Pool) (db : MySql.Database) where
  -- The MySQL store answers as the PostgreSQL store does, but for the source of each object.
  pub record Agrees : Type 0 where
    pub domain :
        (q : GoString)
        → Same stamp_domain (MySql.lookup_domain decode db q) (Postgres.lookup_domain decode pool q)
    pub aggregate :
        (q : GoString)
        → Same stamp_aggregate
            (MySql.get_domain_aggregate decode db q)
            (Postgres.get_domain_aggregate decode pool q)
    pub contact :
        (q : GoString)
        → Same stamp_contact
            (MySql.lookup_contact decode db q)
            (Postgres.lookup_contact decode pool q)
    pub nameserver :
        (q : GoString)
        → Same stamp_nameserver
            (MySql.lookup_nameserver decode db q)
            (Postgres.lookup_nameserver decode pool q)
    pub autnum :
        (n : ℤ)
        → Same stamp_autnum (MySql.lookup_autnum decode db n) (Postgres.lookup_autnum decode pool n)
    pub domains_by_name :
        (q : GoString) (n : ℤ)
        → Same
            (map stamp_domain)
            (MySql.search_domains_by_name decode db q n)
            (Postgres.search_domains_by_name decode pool q n)
    pub domains_by_ns :
        (q : GoString) (n : ℤ)
        → Same
            (map stamp_domain)
            (MySql.search_domains_by_ns decode db q n)
            (Postgres.search_domains_by_ns decode pool q n)
    pub contacts_by_name :
        (q : GoString) (n : ℤ)
        → Same
            (map stamp_contact)
            (MySql.search_contacts_by_name decode db q n)
            (Postgres.search_contacts_by_name decode pool q n)
    pub contacts_by_handle :
        (q : GoString) (n : ℤ)
        → Same
            (map stamp_contact)
            (MySql.search_contacts_by_handle decode db q n)
            (Postgres.search_contacts_by_handle decode pool q n)
    pub nameservers_by_name :
        (q : GoString) (n : ℤ)
        → Same
            (map stamp_nameserver)
            (MySql.search_nameservers_by_name decode db q n)
            (Postgres.search_nameservers_by_name decode pool q n)
    pub nameservers_by_ip :
        (q : GoString) (n : ℤ)
        → Same
            (map stamp_nameserver)
            (MySql.search_nameservers_by_ip decode db q n)
            (Postgres.search_nameservers_by_ip decode pool q n)

stamped-as_error :
    {A : Type 0} (stamp : A → A) (r : Result GoString A)
    → as_error (map_ok stamp r) ≡ map_ok stamp (as_error r)
stamped-as_error stamp (ok a) = refl
stamped-as_error stamp (err e) = refl

scan-Same :
    {R A : Type 0} (stamp : A → A) (prefix : GoString) (f g : R → A)
    → ((x : R) → g x ≡ stamp (f x))
    → (r : Result GoString R)
    → map_ok g (labelled prefix r) ≡ map_ok stamp (map_ok f (labelled prefix r))
scan-Same stamp prefix f g same (err e) = refl
scan-Same stamp prefix f g same (ok x) = ap ok (same x)

one-Same :
    {R A : Type 0} (stamp : A → A) (f g : R → A) (r : Result GoString R)
    → ((x : R) → g x ≡ stamp (f x))
    → Same stamp (as_error (map_ok g r)) (as_error (map_ok f r))
one-Same stamp f g (err e) same = refl
one-Same stamp f g (ok x) same = ap ok (same x)

module _ {R A : Type 0} (stamp : A → A) (f g : Result GoString R → Result GoString A)
    (same : (r : Result GoString R) → g r ≡ map_ok stamp (f r)) where
  rows-Same :
      (rows : List (Result GoString R)) (last : Option GoString)
      → scan_rows g rows last ≡ map_ok (map stamp) (scan_rows f rows last)
  unfolding scan_rows
  rows-Same [] none = refl
  rows-Same [] (some e) = refl
  rows-Same (r ∷ rows) last = elim (Result-cases (f r)) [
    | inl (e, bad) ↦ rw (same r, bad, scan_rows) refl
    | inr (a, good) ↦ elim (Result-cases (scan_rows f rows last)) [
      | inl (e, bad) ↦ rw (same r, rows-Same rows last, good, bad, scan_rows) refl
      | inr (xs, rest) ↦ rw (same r, rows-Same rows last, good, rest, scan_rows) refl
    ]
  ]

  search-Same :
      (prefix : GoString) (r : Result GoString (Cursor R))
      → Same
          (map stamp)
          (as_error (labelled prefix r >>= λ found. scan_rows g found.rows found.last))
          (as_error (labelled prefix r >>= λ found. scan_rows f found.rows found.last))
  search-Same prefix (err e) = refl
  search-Same prefix (ok cursor) =
      ap as_error (rows-Same cursor.rows cursor.last)
      ∙ stamped-as_error (map stamp) (scan_rows f cursor.rows cursor.last)

module _ (decode : Decoder) where
  domain_of-Same :
      (r : DomainRow) → MySql.domain_of decode r ≡ stamp_domain (Postgres.domain_of decode r)
  unfolding MySql.domain_of Postgres.domain_of populate_domain_contacts
  domain_of-Same r = refl

  contact_of-Same :
      (r : ContactRow) → MySql.contact_of decode r ≡ stamp_contact (Postgres.contact_of decode r)
  unfolding MySql.contact_of Postgres.contact_of
  contact_of-Same r = refl

  nameserver_of-Same :
      (r : NameserverRow)
      → MySql.nameserver_of decode r ≡ stamp_nameserver (Postgres.nameserver_of decode r)
  unfolding MySql.nameserver_of Postgres.nameserver_of
  nameserver_of-Same r = refl

  autnum_of-Same :
      (r : AutnumRow) → MySql.autnum_of decode r ≡ stamp_autnum (Postgres.autnum_of decode r)
  unfolding MySql.autnum_of Postgres.autnum_of
  autnum_of-Same r = refl

  scan_domain_row-Same :
      (r : Result GoString DomainRow)
      → MySql.scan_mysql_domain_row decode r
        ≡ map_ok stamp_domain (Postgres.scan_domain_row decode r)
  unfolding MySql.scan_mysql_domain_row Postgres.scan_domain_row
  scan_domain_row-Same =
      scan-Same stamp_domain (str "scan domain: ") (Postgres.domain_of decode)
        (MySql.domain_of decode) domain_of-Same

  scan_contact_row-Same :
      (r : Result GoString ContactRow)
      → MySql.scan_mysql_contact_row decode r
        ≡ map_ok stamp_contact (Postgres.scan_contact_row decode r)
  unfolding MySql.scan_mysql_contact_row Postgres.scan_contact_row
  scan_contact_row-Same =
      scan-Same stamp_contact (str "scan entity: ") (Postgres.contact_of decode)
        (MySql.contact_of decode) contact_of-Same

  scan_nameserver_row-Same :
      (r : Result GoString NameserverRow)
      → MySql.scan_mysql_nameserver_row decode r
        ≡ map_ok stamp_nameserver (Postgres.scan_nameserver_row decode r)
  unfolding MySql.scan_mysql_nameserver_row Postgres.scan_nameserver_row
  scan_nameserver_row-Same =
      scan-Same stamp_nameserver (str "scan nameserver: ") (Postgres.nameserver_of decode)
        (MySql.nameserver_of decode) nameserver_of-Same

  mapped-Same :
      (c c' : GoString → Result GoString Contact) (n n' : GoString → Result GoString NameServer)
      → ((h : GoString) → c' h ≡ map_ok stamp_contact (c h))
      → ((h : GoString) → n' h ≡ map_ok stamp_nameserver (n h))
      → (prefix : GoString) (r : Result GoString Domain)
      → map_ok (resolve c' n') (labelled prefix (map_ok stamp_domain r))
        ≡ map_ok stamp_aggregate (map_ok (resolve c n) (labelled prefix r))
  mapped-Same c c' n n' same_c same_n prefix (err e) = refl
  mapped-Same c c' n n' same_c same_n prefix (ok d) = ap ok (resolve-Same c c' n n' same_c same_n d)

  committed-Same :
      (commit : Option GoString) (r : Result GoString DomainAggregate)
      → (map_ok stamp_aggregate r >>= committed commit)
        ≡ map_ok stamp_aggregate (r >>= committed commit)
  committed-Same none (ok a) = refl
  committed-Same (some e) (ok a) = refl
  committed-Same none (err e) = refl
  committed-Same (some x) (err e) = refl

  in_session-Same :
      (s : Session) (q : GoString)
      → MySql.in_session decode s q ≡ map_ok stamp_aggregate (Postgres.in_session decode s q)
  unfolding MySql.in_session Postgres.in_session MySql.read_aggregate Postgres.read_aggregate
      MySql.lookup_contact_tx Postgres.lookup_contact_tx
  in_session-Same s q =
      let tx = s.reads in
      ap
        (λ r.
          map_ok
            (resolve (MySql.lookup_contact_tx decode tx)
              (λ h. MySql.scan_mysql_nameserver_row decode (tx.host_row h)))
            (labelled (str "domain lookup: ") r)
          >>= committed s.commit)
        (scan_domain_row-Same (tx.domain_row q))
      ∙ ap (λ r. r >>= committed s.commit)
          (mapped-Same (Postgres.lookup_contact_tx decode tx) (MySql.lookup_contact_tx decode tx)
            (λ h. Postgres.scan_nameserver_row decode (tx.host_row h))
            (λ h. MySql.scan_mysql_nameserver_row decode (tx.host_row h))
            (λ h. scan_contact_row-Same (tx.entity_row h))
            (λ h. scan_nameserver_row-Same (tx.host_row h)) (str "domain lookup: ")
            (Postgres.scan_domain_row decode (tx.domain_row q)))
      ∙ committed-Same s.commit (Postgres.read_aggregate decode tx q)

  aggregate-Same :
      (pool : Postgres.Pool) (db : MySql.Database)
      → db.begin ≡ pool.begin
      → ((s : Session) → pool.set_isolation s ≡ none)
      → (q : GoString)
      → Same stamp_aggregate
          (MySql.get_domain_aggregate decode db q)
          (Postgres.get_domain_aggregate decode pool q)
  unfolding MySql.get_domain_aggregate Postgres.get_domain_aggregate
  aggregate-Same pool db same isolated q = elim (Result-cases pool.begin) [
    | inl (e, bad) ↦ rw (same, bad, MySql.get_domain_aggregate, Postgres.get_domain_aggregate) refl
    | inr (s, began) ↦
        rw (same, began, isolated s, MySql.get_domain_aggregate, Postgres.get_domain_aggregate)
          (ap as_error (in_session-Same s q)
            ∙ stamped-as_error stamp_aggregate (Postgres.in_session decode s q))
  ]

  -- Over a database that answers the same statements and begins the same transactions, and that
  -- accepts the isolation level, the two stores agree but for the source of each object: on the
  -- lookups of domains, aggregates, contacts, nameservers and autnums, and on every search.
  pub mysql-Agrees :
      (pool : Postgres.Pool) (db : MySql.Database)
      → db.reads ≡ pool.reads
      → db.begin ≡ pool.begin
      → ((s : Session) → pool.set_isolation s ≡ none)
      → Agrees decode pool db
  unfolding MySql.lookup_domain Postgres.lookup_domain MySql.lookup_contact Postgres.lookup_contact
      MySql.lookup_nameserver Postgres.lookup_nameserver MySql.lookup_autnum Postgres.lookup_autnum
      MySql.search_domains_by_name Postgres.search_domains_by_name MySql.search_domains_by_ns
      Postgres.search_domains_by_ns MySql.search_contacts_by_name Postgres.search_contacts_by_name
      MySql.search_contacts_by_handle Postgres.search_contacts_by_handle
      MySql.search_nameservers_by_name Postgres.search_nameservers_by_name
      MySql.search_nameservers_by_ip Postgres.search_nameservers_by_ip MySql.scan_mysql_domain_rows
      MySql.scan_mysql_contact_rows MySql.scan_mysql_nameserver_rows
  mysql-Agrees pool db e same isolated = record {
    aggregate = aggregate-Same pool db same isolated;
    domain = λ q. rw e (
        one-Same stamp_domain (Postgres.domain_of decode) (MySql.domain_of decode)
          (labelled (str "domain lookup: ") (pool.reads.domain_row q)) domain_of-Same);
    contact = λ q. rw e (
        one-Same stamp_contact (Postgres.contact_of decode) (MySql.contact_of decode)
          (labelled (str "entity lookup: ") (pool.reads.entity_row q)) contact_of-Same);
    nameserver = λ q. rw e (
        one-Same stamp_nameserver (Postgres.nameserver_of decode) (MySql.nameserver_of decode)
          (labelled (str "nameserver lookup: ") (pool.reads.nameserver_row q)) nameserver_of-Same);
    autnum = λ q. rw e (
        one-Same stamp_autnum (Postgres.autnum_of decode) (MySql.autnum_of decode)
          (labelled (str "autnum lookup: ") (pool.reads.autnum_row q)) autnum_of-Same);
    domains_by_name = λ q n. rw e (
        search-Same stamp_domain (Postgres.scan_domain_row decode)
          (MySql.scan_mysql_domain_row decode) scan_domain_row-Same (str "search domains: ")
          (pool.reads.domains_like (pattern_to_sql q) n));
    domains_by_ns = λ q n. rw e (
        search-Same stamp_domain (Postgres.scan_domain_row decode)
          (MySql.scan_mysql_domain_row decode) scan_domain_row-Same (str "search domains by NS: ")
          (pool.reads.domains_of_host q n));
    contacts_by_name = λ q n. rw e (
        search-Same stamp_contact (Postgres.scan_contact_row decode)
          (MySql.scan_mysql_contact_row decode) scan_contact_row-Same (str "search entities: ")
          (pool.reads.entities_like (str "%" ++ pattern_to_sql q ++ str "%") n));
    contacts_by_handle = λ q n. rw e (
        search-Same stamp_contact (Postgres.scan_contact_row decode)
          (MySql.scan_mysql_contact_row decode) scan_contact_row-Same
          (str "search entities by handle: ")
          (pool.reads.entity_handles_like (pattern_to_sql q) n));
    nameservers_by_name = λ q n. rw e (
        search-Same stamp_nameserver (Postgres.scan_nameserver_row decode)
          (MySql.scan_mysql_nameserver_row decode) scan_nameserver_row-Same
          (str "search nameservers: ") (pool.reads.hosts_like (pattern_to_sql q) n));
    nameservers_by_ip = λ q n. rw e (
        search-Same stamp_nameserver (Postgres.scan_nameserver_row decode)
          (MySql.scan_mysql_nameserver_row decode) scan_nameserver_row-Same
          (str "search nameservers by IP: ")
          (pool.reads.hosts_with_address (str "[\"" ++ q ++ str "\"]") n));
  }
