-- ===== src/Store/Sql/Dsn.antt =====
-- internal/store/mysql.go: normalizeMySQLDSN. The URL parser and FormatDSN are parameters.
pub mod Stripped
use go_rdap_server.Base.{
  ℕ, zero, suc, ◌+◌, Option, none, some, List, [], ◌∷◌, ◌++◌, true, not, length, if◌then◌else◌,
  Result, ok, err, ◌>>=◌, GoString, str, str_eq, has_prefix, drop, trim_prefix, Bool,
}
use go_rdap_server.Domain.{Assoc, put}

-- The fields of mysql.Config that the source reads or writes, and the others as one.
pub record MySqlConfig : Type 0 where
  pub user : GoString
  pub passwd : GoString
  pub network : GoString
  pub addr : GoString
  pub db_name : GoString
  pub params : Assoc GoString GoString
  pub parse_time : Bool
  pub collation : GoString
  pub others : GoString

-- What the source reads of a parsed URL: the user with the password, "" if there is none, and the
-- query, which has a first value for every key.
pub record Url : Type 0 where
  pub user : Option (GoString × GoString)
  pub host : GoString
  pub path : GoString
  pub query : Assoc GoString (GoString × List GoString)

abbrev pub shifted : Option ℕ → Option ℕ
shifted none = none
shifted (some i) = some (suc i)

-- strings.Index
unfoldable pub index : GoString → GoString → Option ℕ
index sub [] = if has_prefix sub [] then some 0 else none
index sub (c ∷ s) =
    let rest = index sub s in if has_prefix sub (c ∷ s) then some 0 else shifted rest

-- s[:n]
unfoldable pub take : ℕ → GoString → GoString
take zero s = []
take (suc n) [] = []
take (suc n) (c ∷ s) = c ∷ take n s

abbrev pub scheme : GoString
scheme = str "mysql://"

-- `kept` and the text behind it, without the parenthesis that closes what `tcp(` opened.
abbrev pub close : GoString → GoString → GoString → GoString
close pre kept rest = elim (index (str ")") rest) [
  | none ↦ pre
  | some i ↦ kept ++ take i rest ++ drop (suc i) rest
]

-- The text with `tcp(` and its closing parenthesis cut out.
unfoldable pub strip_tcp : GoString → GoString
unfolding index take
strip_tcp pre = elim (index (str "@tcp(") pre) [
  | some i ↦ close pre (take (suc i) pre) (drop (i + 5) pre)
  | none ↦
      if has_prefix (str "tcp(") (drop 8 pre) then close pre (take 8 pre) (drop 12 pre) else pre
]

abbrev pub with_user : Option (GoString × GoString) → MySqlConfig → MySqlConfig
with_user none mc = mc
with_user (some (name, password)) mc = record mc { user = name; passwd = password }

-- The switch on a key of the query.
unfoldable pub set_parameter : GoString → GoString → MySqlConfig → MySqlConfig
set_parameter k v mc =
    if str_eq k (str "parseTime")
    then record mc { parse_time = str_eq v (str "true") }
    else if str_eq k (str "charset")
    then record mc { params = put (str "charset") v mc.params }
    else if str_eq k (str "collation")
    then record mc { collation = v }
    else record mc { params = put k v mc.params }

unfoldable pub set_parameters :
    Assoc GoString (GoString × List GoString) → MySqlConfig → MySqlConfig
unfolding set_parameter
set_parameters [] mc = mc
set_parameters ((k, (v, more)) ∷ query) mc = set_parameters query (set_parameter k v mc)

module _ (parse_url : GoString → Result GoString Url) (new_config : MySqlConfig)
    (format_dsn : MySqlConfig → GoString) (quoted : GoString → GoString) where
  unfoldable pub config_of : Url → MySqlConfig
  unfolding set_parameters
  config_of u =
      let mc = with_user u.user (record new_config { network = str "tcp"; params = [] }) in
      set_parameters u.query (record mc { addr = u.host; db_name = trim_prefix (str "/") u.path })

  abbrev pub parsed_url : GoString → Result GoString Url → Result GoString GoString
  parsed_url dsn (err e) = err (str "parse mysql URL " ++ quoted dsn ++ str ": " ++ e)
  parsed_url dsn (ok u) = ok (format_dsn (config_of u))

  unfoldable pub normalize_mysql_dsn : GoString → Result GoString GoString
  unfolding strip_tcp config_of
  normalize_mysql_dsn dsn =
      if not (has_prefix scheme dsn) then ok dsn else parsed_url dsn (parse_url (strip_tcp dsn))
