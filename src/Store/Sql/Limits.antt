-- ===== src/Store/Sql/Limits.antt =====
-- internal/store/postgres.go and mysql.go: how many results the searches of both stores give.
use mathlib.Core.Path.{subst}
use go_rdap_server.Base.{
  refl, sym, ℕ, suc, none, List, [], map, length-map, arith, Result, ok, err, GoString, pos,
}
use go_rdap_server.Store.Interface.{Error}
use go_rdap_server.Store.Memory.Bounded.{AtMost, IsBounded}
use go_rdap_server.Store.Sql.{Decoder}
use go_rdap_server.Store.Sql.Postgres
use go_rdap_server.Store.Sql.Postgres.Backend.{postgres_interface}
use go_rdap_server.Store.Sql.MySql
use go_rdap_server.Store.Sql.MySql.Backend.{mysql_interface}
use go_rdap_server.Store.Sql.IpRange.{Prefix}
use go_rdap_server.Store.Sql.Searches.{KeepsLimits, postgres_interface-IsBounded}
use go_rdap_server.Store.Sql.Stamps.{stamp_domain, stamp_contact, stamp_nameserver}
use go_rdap_server.Store.Sql.Agreement.{Same, mysql-Agrees}

Same-AtMost :
    {A : Type 0} (stamp : A → A) (limit : ℕ) (r s : Result Error (List A))
    → Same (map stamp) r s
    → AtMost limit s
    → AtMost limit r
Same-AtMost stamp limit r (err e) same h = subst (AtMost limit) (sym same) tt
Same-AtMost stamp limit r (ok xs) same h =
    subst (AtMost limit) (sym same) (omega (arith, length-map stamp xs, h))

module _ (decode : Decoder) (quoted : GoString → GoString)
    (parse_prefix : GoString → Result GoString Prefix) where
  -- A pool over the database of the MySQL store.
  abbrev twin : MySql.Database → Postgres.Pool
  twin db = record {
    reads = db.reads;
    network_row = λ cidr. err [];
    begin = db.begin;
    set_isolation = λ session. none;
  }

  mysql_interface-IsBounded :
      (db : MySql.Database)
      → KeepsLimits db.reads
      → IsBounded (mysql_interface decode quoted parse_prefix db)
  unfolding mysql_interface postgres_interface MySql.reverse_search_domains_by_entity
  mysql_interface-IsBounded db keeps =
      let a = mysql-Agrees decode (twin db) db refl refl (λ s. refl) in
      let b = postgres_interface-IsBounded decode (twin db) keeps in
      record {
        domains_by_name = λ q n.
            Same-AtMost stamp_domain (suc n) _ _ (a.domains_by_name q (pos (suc n)))
              (b.domains_by_name q n);
        domains_by_ns = λ q n.
            Same-AtMost stamp_domain (suc n) _ _ (a.domains_by_ns q (pos (suc n)))
              (b.domains_by_ns q n);
        contacts_by_name = λ q n.
            Same-AtMost stamp_contact (suc n) _ _ (a.contacts_by_name q (pos (suc n)))
              (b.contacts_by_name q n);
        contacts_by_handle = λ q n.
            Same-AtMost stamp_contact (suc n) _ _ (a.contacts_by_handle q (pos (suc n)))
              (b.contacts_by_handle q n);
        nameservers_by_name = λ q n.
            Same-AtMost stamp_nameserver (suc n) _ _ (a.nameservers_by_name q (pos (suc n)))
              (b.nameservers_by_name q n);
        nameservers_by_ip = λ q n.
            Same-AtMost stamp_nameserver (suc n) _ _ (a.nameservers_by_ip q (pos (suc n)))
              (b.nameservers_by_ip q n);
        reverse_search = λ property q n. tt;
      }

  -- Every search of the SQL stores gives at most as many results as a positive limit says, if the
  -- database keeps to the limit of each statement.
  pub interfaces-IsBounded :
      (pool : Postgres.Pool) (db : MySql.Database)
      → KeepsLimits pool.reads
      → KeepsLimits db.reads
      → IsBounded (postgres_interface decode pool)
        × IsBounded (mysql_interface decode quoted parse_prefix db)
  interfaces-IsBounded pool db keeps keeps' =
      (postgres_interface-IsBounded decode pool keeps, mysql_interface-IsBounded db keeps')
