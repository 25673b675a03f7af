-- ===== src/Store/Sql/Connect/Opened.antt =====
-- internal/store/store.go: what New gives.
use go_rdap_server.Base.{
  ◌≡◌, refl, Option, none, some, if◌then◌else◌, is_empty, Result, ok, err, ◌>>=◌, GoString, str,
  str_eq, str_eq_iff, ℤ, inl, inr, Bool-cases,
}
use mathlib.Core.Path.{subst}
use go_rdap_server.Domain.{Time}
use go_rdap_server.Config.{StorageConfig}
use go_rdap_server.Store.Memory.Seed.{new_memory_store}
use go_rdap_server.Store.Sql.{labelled}
use go_rdap_server.Store.Sql.Postgres.{Pool}
use go_rdap_server.Store.Sql.MySql.{Database}
use go_rdap_server.Store.Sql.Dsn.{normalize_mysql_dsn}
use go_rdap_server.Store.Sql.Connect.{
  Pgx, SqlDriver, Backend, memory, postgres, mysql, of_kind, pinged, pool_config, mysql_config,
  settings, new_postgres_store, new_mysql_store, new,
}

bind-ok :
    {A B : Type 0} (r : Result GoString B) (f : B → Result GoString A) (a : A)
    → (r >>= f) ≡ ok a
    → (b : B) × (f b ≡ ok a)
bind-ok (ok b) f a h = (b, h)
bind-ok (err e) f a h = cc h

pinged-ok : {A : Type 0} (o : Option GoString) (b a : A) → pinged o b ≡ ok a → (o ≡ none) × (b ≡ a)
pinged-ok none b a h = (refl, cc h)
pinged-ok (some e) b a h = cc h

answered :
    {A : Type 0} (ping : A → Option GoString) (b a : A) → pinged (ping b) b ≡ ok a → ping a ≡ none
answered ping b a h =
    let (fine, same) = pinged-ok (ping b) b a h in subst (λ x. ping x ≡ none) same fine

new_postgres_store-answered :
    (pgx : Pgx) (cfg : StorageConfig) (pool : Pool)
    → new_postgres_store pgx cfg ≡ ok pool
    → pgx.ping pool ≡ none
unfolding new_postgres_store
new_postgres_store-answered pgx cfg pool h =
    let (c, h₁) =
      bind-ok (labelled (str "parse pgx config: ") (pgx.parse_config cfg.dsn)) _ pool h in
    let (opened, h₂) =
      bind-ok (labelled (str "create pool: ") (pgx.new_pool (pool_config cfg c))) _ pool h₁ in
    answered pgx.ping opened pool h₂

new_mysql_store-answered :
    (sql : SqlDriver) (cfg : StorageConfig) (db : Database)
    → new_mysql_store sql cfg ≡ ok db
    → sql.ping db ≡ none
unfolding new_mysql_store
new_mysql_store-answered sql cfg db h =
    let (dsn, h₁) =
      bind-ok (normalize_mysql_dsn sql.parse_url sql.new_config sql.format_dsn sql.quoted cfg.dsn) _
        db h in
    let (mc, h₂) = bind-ok (labelled (str "parse mysql DSN: ") (sql.parse_dsn dsn)) _ db h₁ in
    let (opened, h₃) =
      bind-ok (labelled (str "open mysql: ") (sql.open_db (sql.format_dsn (mysql_config mc)))) _ db
        h₂ in
    answered sql.ping (sql.configured (settings cfg) opened) db h₃

-- The backend is of the kind that the driver names, and its database, if it has one, answered a ping.
abbrev pub IsOpened : Pgx → SqlDriver → StorageConfig → Backend → Type 0
IsOpened pgx sql cfg (memory s) = cfg.driver ≡ str "memory"
IsOpened pgx sql cfg (postgres pool) = (cfg.driver ≡ str "postgres") × (pgx.ping pool ≡ none)
IsOpened pgx sql cfg (mysql db) = (cfg.driver ≡ str "mysql") × (sql.ping db ≡ none)

module _ (pgx : Pgx) (sql : SqlDriver) (cfg : StorageConfig) where
  postgres-IsOpened :
      (backend : Backend)
      → cfg.driver ≡ str "postgres"
      → (r : Result GoString Pool) → new_postgres_store pgx cfg ≡ r
      → of_kind postgres r ≡ ok backend
      → IsOpened pgx sql cfg backend
  postgres-IsOpened backend named (err e) h built = cc built
  postgres-IsOpened backend named (ok pool) h built =
      subst (IsOpened pgx sql cfg) {x = postgres pool} (cc built)
        (named, new_postgres_store-answered pgx cfg pool h)

  mysql-IsOpened :
      (backend : Backend)
      → cfg.driver ≡ str "mysql"
      → (r : Result GoString Database) → new_mysql_store sql cfg ≡ r
      → of_kind mysql r ≡ ok backend
      → IsOpened pgx sql cfg backend
  mysql-IsOpened backend named (err e) h built = cc built
  mysql-IsOpened backend named (ok db) h built =
      subst (IsOpened pgx sql cfg) {x = mysql db} (cc built)
        (named, new_mysql_store-answered sql cfg db h)

  -- A backend that New returns is of the kind that the driver names, and its database, if it has
  -- one, has answered a ping.
  pub new-IsOpened :
      (now : Time) (parse_ttl : GoString → Option ℤ) (backend : Backend)
      → new pgx sql now parse_ttl cfg ≡ ok backend
      → IsOpened pgx sql cfg backend
  unfolding new
  new-IsOpened now parse_ttl backend h = elim (Bool-cases (str_eq cfg.driver (str "memory"))) [
    | inl in_memory ↦
        subst (IsOpened pgx sql cfg)
          {x = memory (
            new_memory_store now
              (if is_empty cfg.cache_ttl then none else parse_ttl cfg.cache_ttl))}
          (cc (rw (in_memory, new) at h)) ((str_eq_iff cfg.driver (str "memory")).0 in_memory)
    | inr not_memory ↦ elim (Bool-cases (str_eq cfg.driver (str "postgres"))) [
      | inl pg ↦
          postgres-IsOpened backend ((str_eq_iff cfg.driver (str "postgres")).0 pg) _ refl
            (rw (not_memory, pg, new) at h)
      | inr not_pg ↦ elim (Bool-cases (str_eq cfg.driver (str "mysql"))) [
        | inl my ↦
            mysql-IsOpened backend ((str_eq_iff cfg.driver (str "mysql")).0 my) _ refl
              (rw (not_memory, not_pg, my, new) at h)
        | inr not_my ↦ cc (rw (not_memory, not_pg, not_my, new) at h)
      ]
    ]
  ]
