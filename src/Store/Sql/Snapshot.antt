-- ===== src/Store/Sql/Snapshot.antt =====
-- internal/store/postgres.go and mysql.go: an aggregate is read in one transaction.
use mathlib.Core.Path.{subst}
use go_rdap_server.Base.{
  ◌≡◌, refl, sym, ap, ◌∙◌, Option, none, some, inl, inr, Result, ok, err, ◌>>=◌, GoString, str,
  Option-cases, Result-cases,
}
use go_rdap_server.Domain.{Domain, DomainAggregate, Contact, NameServer}
use go_rdap_server.Store.Sql.{
  Decoder, Reads, Session, resolve, as_error, map_ok, labelled, committed,
}
use go_rdap_server.Store.Sql.Hosts.{IsKeyed}
use go_rdap_server.Store.Sql.Resolved.{IsResolved, resolve-domain, resolve-IsResolved}
use go_rdap_server.Store.Sql.Postgres
use go_rdap_server.Store.Sql.MySql

as_error-ok : {A : Type 0} (r : Result GoString A) (a : A) → as_error r ≡ ok a → r ≡ ok a
as_error-ok (ok x) a e = cc e
as_error-ok (err x) a e = cc e

committed-ok :
    {A : Type 0} (commit : Option GoString) (r : Result GoString A) (a : A)
    → (r >>= committed commit) ≡ ok a
    → (commit ≡ none) × (r ≡ ok a)
committed-ok none (ok x) a e = (refl, e)
committed-ok none (err x) a e = cc e
committed-ok (some c) (ok x) a e = cc e
committed-ok (some c) (err x) a e = cc e

-- The row of the domain scans to the domain of the aggregate, which is resolved.
module _ (contact_of : GoString → Result GoString Contact)
    (nameserver_of : GoString → Result GoString NameServer) (keyed : IsKeyed nameserver_of) where
  resolve-ok :
      (row : Result GoString Domain) (agg : DomainAggregate)
      → map_ok (resolve contact_of nameserver_of) (labelled (str "domain lookup: ") row) ≡ ok agg
      → (row ≡ ok agg.domain) × IsResolved contact_of nameserver_of agg
  resolve-ok (err x) agg e = cc e
  resolve-ok (ok d) agg e =
      let same : resolve contact_of nameserver_of d ≡ agg = cc e in
      (
        ap ok (sym (resolve-domain contact_of nameserver_of d) ∙ ap (λ a. a.domain) same),
        subst (IsResolved contact_of nameserver_of) same
            (resolve-IsResolved contact_of nameserver_of d keyed),
      )

module _ (decode : Decoder) where
  -- The nameserver of a handle in a state of the database.
  abbrev pub host : Reads → GoString → Result GoString NameServer
  host tx handle = Postgres.scan_nameserver_row decode (tx.host_row handle)

  abbrev pub mysql_host : Reads → GoString → Result GoString NameServer
  mysql_host tx handle = MySql.scan_mysql_nameserver_row decode (tx.host_row handle)

  -- An aggregate is one that a transaction reads: the transaction began, with the isolation that
  -- keeps its reads in one state of the database, and was committed; the domain is the row of the
  -- name in that state, and its contacts and nameservers are those of that state.
  pub record IsSnapshot (pool : Postgres.Pool) (name : GoString) (agg : DomainAggregate)
      : Type 0 where
    pub session : Session
    pub began : pool.begin ≡ ok session
    pub isolated : pool.set_isolation session ≡ none
    pub committed : session.commit ≡ none
    pub domain : Postgres.scan_domain_row decode (session.reads.domain_row name) ≡ ok agg.domain
    pub resolved :
        IsResolved (Postgres.lookup_contact_tx decode session.reads) (host session.reads) agg

  -- The same for MySQL, where the isolation is an option of the begin.
  pub record IsMySqlSnapshot (db : MySql.Database) (name : GoString) (agg : DomainAggregate)
      : Type 0 where
    pub session : Session
    pub began : db.begin ≡ ok session
    pub committed : session.commit ≡ none
    pub domain : MySql.scan_mysql_domain_row decode (session.reads.domain_row name) ≡ ok agg.domain
    pub resolved :
        IsResolved (MySql.lookup_contact_tx decode session.reads) (mysql_host session.reads) agg

  -- Every aggregate of the PostgreSQL store is read in one transaction, if the row of a nameserver
  -- that a handle selects carries the handle.
  pub postgres_aggregate-IsSnapshot :
      (pool : Postgres.Pool) (name : GoString) (agg : DomainAggregate)
      → ((session : Session) → pool.begin ≡ ok session → IsKeyed (host session.reads))
      → Postgres.get_domain_aggregate decode pool name ≡ ok agg
      → IsSnapshot pool name agg
  unfolding Postgres.get_domain_aggregate Postgres.in_session Postgres.read_aggregate
  postgres_aggregate-IsSnapshot pool name agg keyed e = elim (Result-cases pool.begin) [
    | inl (x, bad) ↦ cc (rw (bad, Postgres.get_domain_aggregate) at e)
    | inr (session, began) ↦ elim (Option-cases (pool.set_isolation session)) [
      | inr (x, bad) ↦ cc (rw (began, bad, Postgres.get_domain_aggregate) at e)
      | inl isolated ↦
          let read =
            as_error-ok (Postgres.in_session decode session name) agg
              (rw (began, isolated, Postgres.get_domain_aggregate) at e) in
          let (fine, built) =
            committed-ok session.commit (Postgres.read_aggregate decode session.reads name) agg
              read in
          let (domain, resolved) =
            resolve-ok (Postgres.lookup_contact_tx decode session.reads) (host session.reads)
              (keyed session began)
              (Postgres.scan_domain_row decode (session.reads.domain_row name)) agg built in
          record {
            session = session;
            began = began;
            isolated = isolated;
            committed = fine;
            domain = domain;
            resolved = resolved;
          }
    ]
  ]

  -- Every aggregate of the MySQL store is read in one transaction, if the row of a nameserver that
  -- a handle selects carries the handle.
  pub mysql_aggregate-IsSnapshot :
      (db : MySql.Database) (name : GoString) (agg : DomainAggregate)
      → ((session : Session) → db.begin ≡ ok session → IsKeyed (mysql_host session.reads))
      → MySql.get_domain_aggregate decode db name ≡ ok agg
      → IsMySqlSnapshot db name agg
  unfolding MySql.get_domain_aggregate MySql.in_session MySql.read_aggregate
  mysql_aggregate-IsSnapshot db name agg keyed e = elim (Result-cases db.begin) [
    | inl (x, bad) ↦ cc (rw (bad, MySql.get_domain_aggregate) at e)
    | inr (session, began) ↦
        let read =
          as_error-ok (MySql.in_session decode session name) agg
            (rw (began, MySql.get_domain_aggregate) at e) in
        let (fine, built) =
          committed-ok session.commit (MySql.read_aggregate decode session.reads name) agg read in
        let (domain, resolved) =
          resolve-ok (MySql.lookup_contact_tx decode session.reads) (mysql_host session.reads)
            (keyed session began)
            (MySql.scan_mysql_domain_row decode (session.reads.domain_row name)) agg built in
        record {
          session = session;
          began = began;
          committed = fine;
          domain = domain;
          resolved = resolved;
        }
  ]
