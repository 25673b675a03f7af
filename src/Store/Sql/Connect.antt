-- ===== src/Store/Sql/Connect.antt =====
-- internal/store/postgres.go, mysql.go and store.go: the constructors of the stores. The drivers
-- are parameters, a pool or a database together with the answer to a ping.
pub mod Opened
use go_rdap_server.Base.{
  ℕ, suc, ◌+◌, ◌-◌, ◌%◌, ◌^◌, Option, none, some, true, [], ◌++◌, ltb, if◌then◌else◌, is_empty,
  Result, ok, err, ◌>>=◌, GoString, str, str_eq, ℤ, pos, negsuc, is_positive,
}
use go_rdap_server.Domain.{Time}
use go_rdap_server.Config.{StorageConfig}
use go_rdap_server.Store.Memory.{MemoryStore}
use go_rdap_server.Store.Memory.Seed.{new_memory_store}
use go_rdap_server.Store.Sql.{labelled}
use go_rdap_server.Store.Sql.Postgres.{Pool}
use go_rdap_server.Store.Sql.MySql.{Database}
use go_rdap_server.Store.Sql.Dsn.{MySqlConfig, Url, normalize_mysql_dsn}

-- int32(n)
unfoldable pub to_int32 : ℤ → ℤ
to_int32 (pos n) = let m = n % 2 ^ 32 in if ltb m (2 ^ 31) then pos m else negsuc (2 ^ 32 - 1 - m)
to_int32 (negsuc n) =
    let m = n % 2 ^ 32 in if ltb m (2 ^ 31) then negsuc m else pos (2 ^ 32 - 1 - m)

-- The fields of pgxpool.Config that the source writes, and the others as one.
pub record PoolConfig : Type 0 where
  pub max_conns : ℤ
  pub min_conns : ℤ
  pub others : GoString

-- if err := ping(); err != nil { return nil, fmt.Errorf("ping database: %w", err) }
abbrev pub pinged : {A : Type 0} → Option GoString → A → Result GoString A
pinged none a = ok a
pinged (some e) a = err (str "ping database: " ++ e)

abbrev pub pool_config : StorageConfig → PoolConfig → PoolConfig
pool_config cfg c = record c {
  max_conns = if is_positive cfg.max_open then to_int32 cfg.max_open else c.max_conns;
  min_conns = if is_positive cfg.max_idle then to_int32 cfg.max_idle else c.min_conns;
}

pub record Pgx : Type 0 where
  pub parse_config : GoString → Result GoString PoolConfig
  pub new_pool : PoolConfig → Result GoString Pool
  pub ping : Pool → Option GoString

unfoldable pub new_postgres_store : Pgx → StorageConfig → Result GoString Pool
unfolding to_int32
new_postgres_store pgx cfg = labelled (str "parse pgx config: ") (pgx.parse_config cfg.dsn) >>= λ c.
    labelled (str "create pool: ") (pgx.new_pool (pool_config cfg c)) >>= λ pool.
    pinged (pgx.ping pool) pool

-- The settings of a sql.DB: `none` where the default of the package stays.
pub record Settings : Type 0 where
  pub max_open : Option ℤ
  pub max_idle : Option ℤ
  pub max_lifetime : ℤ

pub record SqlDriver : Type 0 where
  pub parse_url : GoString → Result GoString Url
  pub new_config : MySqlConfig
  pub quoted : GoString → GoString
  pub parse_dsn : GoString → Result GoString MySqlConfig
  pub format_dsn : MySqlConfig → GoString
  pub open_db : GoString → Result GoString Database
  pub configured : Settings → Database → Database
  pub ping : Database → Option GoString

abbrev pub mysql_config : MySqlConfig → MySqlConfig
mysql_config mc = record mc {
  parse_time = true;
  collation = if is_empty mc.collation then str "utf8mb4_general_ci" else mc.collation;
}

abbrev pub settings : StorageConfig → Settings
settings cfg = record {
  max_open = if is_positive cfg.max_open then some cfg.max_open else none;
  max_idle = if is_positive cfg.max_idle then some cfg.max_idle else none;
  max_lifetime = pos 3_600_000_000_000;
}

unfoldable pub new_mysql_store : SqlDriver → StorageConfig → Result GoString Database
unfolding normalize_mysql_dsn
new_mysql_store sql cfg =
    normalize_mysql_dsn sql.parse_url sql.new_config sql.format_dsn sql.quoted cfg.dsn >>= λ dsn.
    labelled (str "parse mysql DSN: ") (sql.parse_dsn dsn) >>= λ mc.
    labelled (str "open mysql: ") (sql.open_db (sql.format_dsn (mysql_config mc))) >>= λ db.
    pinged (sql.ping (sql.configured (settings cfg) db)) (sql.configured (settings cfg) db)

-- The store that `New` made.
pub data Backend : Type 0 where
  memory : MemoryStore → Backend
  postgres : Pool → Backend
  mysql : Database → Backend

abbrev pub of_kind : {A : Type 0} → (A → Backend) → Result GoString A → Result GoString Backend
of_kind f (ok a) = ok (f a)
of_kind f (err e) = err e

-- `New`; the clock and time.ParseDuration are those of NewMemoryStore.
unfoldable pub new :
    Pgx → SqlDriver → Time → (GoString → Option ℤ) → StorageConfig → Result GoString Backend
unfolding new_postgres_store new_mysql_store
new pgx sql now parse_ttl cfg =
    if str_eq cfg.driver (str "memory")
    then ok (
        memory
          (new_memory_store now (if is_empty cfg.cache_ttl then none else parse_ttl cfg.cache_ttl)))
    else if str_eq cfg.driver (str "postgres")
    then of_kind postgres (new_postgres_store pgx cfg)
    else if str_eq cfg.driver (str "mysql")
    then of_kind mysql (new_mysql_store sql cfg)
    else err (str "unsupported storage driver: " ++ cfg.driver)
