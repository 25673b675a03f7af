-- ===== src/Tests/Data.antt =====
-- A small registry, a configuration and stand-ins for the packages that the source uses.
use go_rdap_server.Base.{
  true, false, Option, none, some, [], ◌∷◌, ◌++◌, if◌then◌else◌, ok, err, GoString, str, Unicode,
  str_eq, ℤ, pos,
}
use go_rdap_server.Domain.{Contact, contact, nil, Domain, NameServer, Metadata, VCard}
use go_rdap_server.Config.{is_listed, RdapConfig, RateConfig, AuthConfig, Config}
use go_rdap_server.Store.Memory.{MemoryStore}
use go_rdap_server.Store.Memory.Search.{Compile}
use go_rdap_server.Store.Memory.Adapter.{memory_interface}
use go_rdap_server.Rdap.Names.{Idna}
use go_rdap_server.Service.Queries.{Service}
use go_rdap_server.Middleware.ClientIp.{Net}
use go_rdap_server.Auth.Keys.{Key, rsa}
use go_rdap_server.Auth.Tokens.{Jwt, JwtClaims, Claims, Outcome, accepted, rejected}
use go_rdap_server.Handlers.{Handler, Request, Platform}
use go_rdap_server.Middleware.ClientIp
use go_rdap_server.Server

abbrev pub unicode : Unicode
unicode = record { lower = λ s. s; trim_space = λ s. s; equal_fold = str_eq; fields = λ s. s ∷ [] }

-- An expression without wildcards or dots, which matches the text between its anchors.
abbrev pub compile : Compile
compile source = ok (λ s. str_eq (str "^" ++ s ++ str "$") source)

abbrev pub metadata : Metadata
metadata = record {
  version = pos 1;
  created_at = 5;
  updated_at = 6;
  updated_by = [];
  source = [];
  history = [];
  audit = [];
}

abbrev pub vcard : VCard
vcard = record {
  version = str "4.0";
  full_name = str "Ann";
  kind = str "individual";
  organization = [];
  address = none;
  voice_tel = str "+1";
  fax_tel = [];
  email = str "a@b";
  contact_uri = [];
}

abbrev pub registrar : Contact
registrar =
    contact
      (record {
        handle = str "R1";
        roles = str "registrar" ∷ [];
        status = [];
        vcard = some vcard;
        public_ids = [];
        privacy = [];
        registrar_id = [];
        registrar_base_url = [];
        metadata = metadata;
      })
      nil

abbrev pub host : NameServer
host = record {
  handle = str "H1";
  ldh_name = str "ns";
  unicode_name = [];
  ipv4 = str "1.1.1.1" ∷ [];
  ipv6 = [];
  status = [];
  metadata = metadata;
}

abbrev pub a_b : Domain
a_b = record {
  handle = str "D1";
  ldh_name = str "a.b";
  unicode_name = str "a.b";
  tld = str "b";
  status = [];
  expires_at = 9;
  contacts = (str "registrant", str "R1" ∷ []) ∷ [];
  nameservers = host ∷ [];
  secure_dns = none;
  registrar = str "R1";
  metadata = metadata;
}

abbrev pub store : MemoryStore
store = record {
  domains = (str "a.b", a_b) ∷ [];
  contacts = (str "R1", registrar) ∷ [];
  nameservers = (str "H1", host) ∷ [];
  ip_networks = [];
  autnums = [];
  domain_by_ns = (str "ns", str "a.b" ∷ []) ∷ [];
  domain_by_entity = [];
  cache_ttl = pos 0;
  seeded = true;
}

abbrev pub rdap_config : RdapConfig
rdap_config = record {
  tlds = [];
  mode = str "registrar";
  base_url = str "u";
  registrar_base_url = str "u";
  max_domain_len = pos 253;
  max_search_limit = pos 10;
  port43_whois = [];
  server_name = [];
  version = str "1.2";
  search_enabled = true;
  extensions = str "reverse_search" ∷ [];
  ttl0 = none;
  geofeed = none;
  tos = none;
  custom_notices = [];
}

abbrev pub rate_config : RateConfig
rate_config = record {
  enabled = true;
  requests = pos 100;
  window = pos 60_000_000_000;
  burst = pos 0;
  trusted_ips = str "10.0.0.1" ∷ [];
}

abbrev pub auth_config : AuthConfig
auth_config = record {
  enabled = true;
  jwks_endpoint = [];
  issuer = [];
  audience = [];
  algorithms = [];
}

abbrev pub config : Config
config = record {
  server = record {
    host = [];
    port = pos 0;
    read_timeout = pos 0;
    write_timeout = pos 0;
    idle_timeout = pos 0;
    max_header_bytes = pos 0;
    tls_cert_file = [];
    tls_key_file = [];
  };
  storage = record {
    driver = str "memory";
    dsn = [];
    max_open = pos 0;
    max_idle = pos 0;
    cache_ttl = [];
  };
  rdap = rdap_config;
  auth = auth_config;
  metrics = record { enabled = false; host = []; port = pos 0 };
  rate = rate_config;
  whois = record { enabled = false; port = pos 0 };
}

abbrev pub idna : Idna
idna = record { to_ascii = λ s. ok s; to_unicode = λ s. ok s }

abbrev pub platform : Platform
platform = record {
  library = record { unicode = unicode; rfc3339 = λ t. str "t"; parse_cidr = λ s. none };
  idna = idna;
  has_port = λ s. true;
  join_host_port = λ h p. h;
  url_string = λ s h p q. p;
  is_prefix = λ s. false;
  is_addr = λ s. true;
  show_duration = λ d. str "1m0s";
}

abbrev pub service : Service
service = record {
  store = memory_interface unicode compile store;
  cfg = rdap_config;
  ext = record {
    ttl0 = false;
    ttl0_domain = [];
    ttl0_ns = [];
    ttl0_remarks = [];
    geofeed1 = false;
    geofeed_url = [];
    cidr0 = false;
    reverse_search = true;
  };
}

abbrev pub handler : Handler
handler = record {
  svc = service;
  cfg = rdap_config;
  port = pos 8443;
  rate = rate_config;
  auth = auth_config;
}

-- A request with the parameter and the value of every name in its query.
abbrev pub http_request : GoString → GoString → Request
http_request param value = record {
  param = param;
  query = λ name. if str_eq name (str "name") then value else [];
  tls = true;
  forwarded_proto = [];
  host = str "h:1";
  path = str "/p";
  raw_query = [];
}

-- An address is its text, and a network contains its own text.
abbrev pub net : Net GoString GoString
net = record {
  split_host_port = λ s. some (s, str "80");
  join_host_port = λ h p. h ++ str ":" ++ p;
  parse_ip = λ s. if str_eq s [] then none else some s;
  is_ipv4 = λ s. true;
  full_network = λ s n. s;
  parse_cidr = λ s. none;
  contains = str_eq;
}

abbrev pub client : GoString → GoString → ClientIp.Request
client peer forwarded = record { remote_addr = peer; forwarded_for = forwarded; real_ip = [] }

abbrev pub claims : Claims
claims = record {
  subject = str "s";
  issuer = [];
  audience = [];
  expiry = pos 9;
  issued_at = pos 1;
  scope = [];
  allowed_purposes = [];
  do_not_track_allowed = false;
}

abbrev pub token_claims : Option ℤ → JwtClaims
token_claims issued_at = record {
  subject = str "s";
  issuer = [];
  audience = [];
  scope = [];
  allowed_purposes = [];
  do_not_track_allowed = false;
  expires_at = some (pos 9);
  issued_at = issued_at;
}

abbrev pub key : Key
key = rsa 77 3

-- Every token names the key "k"; the token "t" has an `iat` claim, others have none.
-- Every token is signed by RS256.
abbrev pub jwt : Jwt
jwt = record {
  header = λ algorithms token.
      if is_listed (str "RS256") algorithms then ok (str "k") else err (str "signing method");
  verify = λ token k. ok (token_claims (if str_eq token (str "t") then some (pos 1) else none));
  decode = λ s. none;
}

-- The token "t" is accepted, others are not.
abbrev pub validate : GoString → Outcome
validate token = if str_eq token (str "t") then accepted claims else rejected (str "bad")

abbrev pub server_request : Server.Request
server_request = record {
  client = client (str "1.2.3.4") (str "9.9.9.9");
  authorization = str "Bearer t";
  http = http_request (str "a.b") [];
}
