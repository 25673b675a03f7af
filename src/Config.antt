-- ===== src/Config.antt =====
-- internal/config/config.go: the settings, their defaults and their validation. Reading the file
-- and decoding the YAML text are parameters of `load`. A time.Duration is a number of nanoseconds.
pub mod Checked
use go_rdap_server.Base.{
  Bool, true, false, not, ◌&&◌, ◌||◌, Option, List, [], ◌∷◌, ◌++◌, if◌then◌else◌, Result, ok, err,
  ◌>>=◌, GoString, str, str_eq, ℤ, pos, is_zero, show_int,
}
use go_rdap_server.Domain.{Assoc}

pub record ServerConfig : Type 0 where
  pub host : GoString
  pub port : ℤ
  pub read_timeout : ℤ
  pub write_timeout : ℤ
  pub idle_timeout : ℤ
  pub max_header_bytes : ℤ
  pub tls_cert_file : GoString
  pub tls_key_file : GoString

pub record StorageConfig : Type 0 where
  pub driver : GoString
  pub dsn : GoString
  pub max_open : ℤ
  pub max_idle : ℤ
  pub cache_ttl : GoString

pub record ExtensionRemark : Type 0 where
  pub title : GoString
  pub description : List GoString

pub record Ttl0Config : Type 0 where
  pub domain : Assoc GoString ℤ
  pub nameserver : Assoc GoString ℤ
  pub remarks : List ExtensionRemark

pub record GeofeedConfig : Type 0 where
  pub url : GoString

pub record TosConfig : Type 0 where
  pub title : GoString
  pub description : List GoString
  pub url : GoString

pub record CustomNoticeConfig : Type 0 where
  pub title : GoString
  pub description : List GoString
  pub url : GoString
  pub rel : GoString

pub record RdapConfig : Type 0 where
  pub tlds : List GoString
  pub mode : GoString
  pub base_url : GoString
  pub registrar_base_url : GoString
  pub max_domain_len : ℤ
  pub max_search_limit : ℤ
  pub port43_whois : GoString
  pub server_name : GoString
  pub version : GoString
  pub search_enabled : Bool
  pub extensions : List GoString
  pub ttl0 : Option Ttl0Config
  pub geofeed : Option GeofeedConfig
  pub tos : Option TosConfig
  pub custom_notices : List CustomNoticeConfig

pub record AuthConfig : Type 0 where
  pub enabled : Bool
  pub jwks_endpoint : GoString
  pub issuer : GoString
  pub audience : GoString
  pub algorithms : List GoString

pub record MetricsConfig : Type 0 where
  pub enabled : Bool
  pub host : GoString
  pub port : ℤ

pub record RateConfig : Type 0 where
  pub enabled : Bool
  pub requests : ℤ
  pub window : ℤ
  pub burst : ℤ
  pub trusted_ips : List GoString

pub record WhoisConfig : Type 0 where
  pub enabled : Bool
  pub port : ℤ

pub record Config : Type 0 where
  pub server : ServerConfig
  pub storage : StorageConfig
  pub rdap : RdapConfig
  pub auth : AuthConfig
  pub metrics : MetricsConfig
  pub rate : RateConfig
  pub whois : WhoisConfig

-- if n == 0 { n = d }
abbrev pub or_default : ℤ → ℤ → ℤ
or_default n d = if is_zero n then d else n

abbrev pub or_text : GoString → GoString → GoString
or_text s d = if str_eq s [] then d else s

unfoldable pub server_defaults : ServerConfig → ServerConfig
server_defaults c = record c {
  port = or_default c.port (pos 8443);
  read_timeout = or_default c.read_timeout (pos 10_000_000_000);
  write_timeout = or_default c.write_timeout (pos 10_000_000_000);
  idle_timeout = or_default c.idle_timeout (pos 60_000_000_000);
  max_header_bytes = or_default c.max_header_bytes (pos 1_048_576);
}

unfoldable pub rdap_defaults : RdapConfig → RdapConfig
rdap_defaults c = record c {
  max_domain_len = or_default c.max_domain_len (pos 253);
  max_search_limit = or_default c.max_search_limit (pos 100);
  registrar_base_url = or_text c.registrar_base_url c.base_url;
  version = or_text c.version (str "1.2");
}

unfoldable pub set_defaults : Config → Config
unfolding server_defaults rdap_defaults
set_defaults c = record c {
  server = server_defaults c.server;
  whois = record c.whois { port = or_default c.whois.port (pos 43) };
  rdap = rdap_defaults c.rdap;
  metrics = record c.metrics { port = or_default c.metrics.port (pos 9090) };
  rate = record c.rate {
    requests = or_default c.rate.requests (pos 100);
    window = or_default c.rate.window (pos 60_000_000_000);
  };
}

-- The errors of `Load`, with the values that their texts show.
pub data Error : Type 0 where
  read_failed parse_failed : GoString → Error
  invalid_mode invalid_extension : GoString → Error
  base_url_required : Error

unfoldable pub is_listed : GoString → List GoString → Bool
is_listed s [] = false
is_listed s (x ∷ xs) = str_eq x s || is_listed s xs

abbrev pub supported_extensions : List GoString
supported_extensions = str "ttl0" ∷ str "geofeed1" ∷ str "cidr0" ∷ str "reverse_search" ∷ []

-- ExtensionsEnabled
unfoldable pub extensions_enabled : RdapConfig → GoString → Bool
unfolding is_listed
extensions_enabled c ext = is_listed ext c.extensions

-- The loop over c.RDAP.Extensions: the first entry that is not supported.
unfoldable pub check_extensions : List GoString → Result Error (Unit {0})
unfolding is_listed
check_extensions [] = ok tt
check_extensions (ext ∷ more) =
    let rest = check_extensions more in
    if not (is_listed ext supported_extensions) then err (invalid_extension ext) else rest

-- The default of the mode is written before the checks.
unfoldable pub set_mode : RdapConfig → RdapConfig
set_mode c = record c { mode = or_text c.mode (str "registrar") }

unfoldable pub validate_rdap : RdapConfig → Result Error RdapConfig
unfolding check_extensions
validate_rdap c =
    if not (str_eq c.mode (str "registrar")) && not (str_eq c.mode (str "registry"))
    then err (invalid_mode c.mode)
    else if str_eq c.base_url []
    then err base_url_required
    else do checked ← check_extensions c.extensions; ok c

unfoldable pub validate : Config → Result Error Config
unfolding validate_rdap set_mode
validate c = do r ← validate_rdap (set_mode c.rdap); ok (record c { rdap = r })

-- `read` is os.ReadFile of the path and `unmarshal` is yaml.Unmarshal into a zero Config, each with
-- the text of its error.
unfoldable pub load :
    Result GoString GoString → (GoString → Result GoString Config) → Result Error Config
unfolding validate set_defaults
load (err e) unmarshal = err (read_failed e)
load (ok text) unmarshal = elim (unmarshal text) [
  | err e ↦ err (parse_failed e)
  | ok c ↦ validate (set_defaults c)
]

abbrev pub bind_all : GoString → Bool
bind_all host = str_eq host [] || str_eq host (str "0.0.0.0")

-- (*Config).Addr and (*Config).WhoisAddr
unfoldable pub listen_addr : GoString → ℤ → GoString
listen_addr host port =
    if bind_all host then str ":" ++ show_int port else host ++ str ":" ++ show_int port

unfoldable pub addr : Config → GoString
unfolding listen_addr
addr c = listen_addr c.server.host c.server.port

unfoldable pub whois_addr : Config → GoString
unfolding listen_addr
whois_addr c = listen_addr c.server.host c.whois.port
