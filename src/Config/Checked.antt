-- ===== src/Config/Checked.antt =====
-- What holds of a configuration that `Load` returns.
use mathlib.Core.Path.{subst}
use go_rdap_server.Base.{
  sym, zero, suc, ◌≡◌, ◌≢◌, ◌⊎◌, inl, inr, true, List, [], ◌∷◌, All, arith, Bool-cases, Result, ok,
  err, Result-cases, GoString, str, str_eq_iff, ℤ, pos, is_zero,
}
use go_rdap_server.Config.{
  Config, supported_extensions, is_listed, check_extensions, set_mode, validate_rdap, validate,
  set_defaults, load, RdapConfig, ServerConfig, or_default, or_text, server_defaults, rdap_defaults,
}

-- A usable configuration: the mode is one of the two, the base URLs and the version are given,
-- each extension is one that the server supports, and the numbers that have a default are not
-- zero, which stands for "not set".
pub record IsChecked (c : Config) : Type 0 where
  pub mode : (c.rdap.mode ≡ str "registrar") ⊎ (c.rdap.mode ≡ str "registry")
  pub base_url : c.rdap.base_url ≢ []
  pub registrar_base_url : c.rdap.registrar_base_url ≢ []
  pub extensions : All (λ e. is_listed e supported_extensions ≡ true) c.rdap.extensions
  pub version : c.rdap.version ≢ []
  pub max_domain_len : c.rdap.max_domain_len ≢ pos 0
  pub max_search_limit : c.rdap.max_search_limit ≢ pos 0
  pub port : c.server.port ≢ pos 0
  pub read_timeout : c.server.read_timeout ≢ pos 0
  pub write_timeout : c.server.write_timeout ≢ pos 0
  pub idle_timeout : c.server.idle_timeout ≢ pos 0
  pub max_header_bytes : c.server.max_header_bytes ≢ pos 0
  pub whois_port : c.whois.port ≢ pos 0
  pub metrics_port : c.metrics.port ≢ pos 0
  pub requests : c.rate.requests ≢ pos 0
  pub window : c.rate.window ≢ pos 0

check_extensions-All :
    (xs : List GoString)
    → check_extensions xs ≡ ok tt
    → All (λ e. is_listed e supported_extensions ≡ true) xs
unfolding check_extensions
check_extensions-All [] h = tt
check_extensions-All (x ∷ xs) h = ground (arith, check_extensions-All xs)

or_default-ne-zero : (n d : ℤ) → d ≢ pos 0 → or_default n d ≢ pos 0
or_default-ne-zero (pos zero) d h = h
or_default-ne-zero (pos (suc n)) d h = ground arith
or_default-ne-zero (ℤ.negsuc n) d h = ground arith

validate_rdap_sound :
    (c r : RdapConfig)
    → validate_rdap c ≡ ok r
    → (r ≡ c)
      × ((c.mode ≡ str "registrar") ⊎ (c.mode ≡ str "registry"))
      × (c.base_url ≢ [])
      × All (λ e. is_listed e supported_extensions ≡ true) c.extensions
unfolding validate_rdap
validate_rdap_sound c r h = ground (
  arith,
  str_eq_iff c.mode (str "registrar"),
  str_eq_iff c.mode (str "registry"),
  str_eq_iff c.base_url [],
  check_extensions-All c.extensions,
)

or_text-ne-nil : (s d : GoString) → d ≢ [] → or_text s d ≢ []
or_text-ne-nil s d h = ground (arith, str_eq_iff s [])

-- The configuration with its defaults, the mode's included.
abbrev filled : Config → Config
filled raw = record (set_defaults raw) { rdap = set_mode (rdap_defaults raw.rdap) }

validate-eq-filled :
    (raw c : Config)
    → validate (set_defaults raw) ≡ ok c
    → (c ≡ filled raw)
      × (((filled raw).rdap.mode ≡ str "registrar") ⊎ ((filled raw).rdap.mode ≡ str "registry"))
      × (raw.rdap.base_url ≢ [])
      × All (λ e. is_listed e supported_extensions ≡ true) raw.rdap.extensions
unfolding validate set_defaults set_mode
validate-eq-filled raw c h =
    elim (Result-cases (validate_rdap (set_mode (rdap_defaults raw.rdap)))) [
      | inl (e, bad) ↦ cc (rw (bad, validate) at h)
      | inr (r, good) ↦
          let (same, mode, base, listed) = validate_rdap_sound _ r good in
          (cc (rw (good, validate) at h, same), mode, base, listed)
    ]

filled-IsChecked :
    (raw : Config)
    → ((filled raw).rdap.mode ≡ str "registrar") ⊎ ((filled raw).rdap.mode ≡ str "registry")
    → raw.rdap.base_url ≢ []
    → All (λ e. is_listed e supported_extensions ≡ true) raw.rdap.extensions
    → IsChecked (filled raw)
unfolding set_defaults set_mode
filled-IsChecked raw mode base listed = record {
  mode = mode;
  base_url = base;
  registrar_base_url = or_text-ne-nil raw.rdap.registrar_base_url raw.rdap.base_url base;
  extensions = listed;
  version = or_text-ne-nil raw.rdap.version (str "1.2") (cc);
  max_domain_len = or_default-ne-zero raw.rdap.max_domain_len (pos 253) (cc);
  max_search_limit = or_default-ne-zero raw.rdap.max_search_limit (pos 100) (cc);
  port = or_default-ne-zero raw.server.port (pos 8443) (cc);
  read_timeout = or_default-ne-zero raw.server.read_timeout (pos 10_000_000_000) (cc);
  write_timeout = or_default-ne-zero raw.server.write_timeout (pos 10_000_000_000) (cc);
  idle_timeout = or_default-ne-zero raw.server.idle_timeout (pos 60_000_000_000) (cc);
  max_header_bytes = or_default-ne-zero raw.server.max_header_bytes (pos 1_048_576) (cc);
  whois_port = or_default-ne-zero raw.whois.port (pos 43) (cc);
  metrics_port = or_default-ne-zero raw.metrics.port (pos 9090) (cc);
  requests = or_default-ne-zero raw.rate.requests (pos 100) (cc);
  window = or_default-ne-zero raw.rate.window (pos 60_000_000_000) (cc);
}

validate-IsChecked : (raw c : Config) → validate (set_defaults raw) ≡ ok c → IsChecked c
validate-IsChecked raw c h =
    let (e, mode, base, listed) = validate-eq-filled raw c h in
    subst IsChecked (sym e) (filled-IsChecked raw mode base listed)

-- Whatever the file holds, a configuration that Load returns is checked: it has one of the two
-- modes, a base URL, one of the registrar and a version, and only supported extensions; the ports
-- of the three servers, the timeouts and header size, the maximum name length and search limit,
-- and the requests and window of the rate limit are not zero, which stands for "not set".
pub load-IsChecked :
    (read : Result GoString GoString) (unmarshal : GoString → Result GoString Config) (c : Config)
    → load read unmarshal ≡ ok c
    → IsChecked c
unfolding load
load-IsChecked (err e) unmarshal c h = cc
load-IsChecked (ok text) unmarshal c h = elim (Result-cases (unmarshal text)) [
  | inl (e, bad) ↦ cc (rw (bad, load) at h)
  | inr (raw, good) ↦ validate-IsChecked raw c (rw (good, load) at h)
]

or_default_idem : (n d : ℤ) → or_default (or_default n d) d ≡ or_default n d
or_default_idem n d = elim (Bool-cases (is_zero n)) [ inl e ↦ ground arith | inr e ↦ ground arith ]

or_text_idem : (s d : GoString) → or_text (or_text s d) d ≡ or_text s d
or_text_idem s d = ground arith

server_defaults_idem : (c : ServerConfig) → server_defaults (server_defaults c) ≡ server_defaults c
unfolding server_defaults
server_defaults_idem c = cc (
  or_default_idem c.port (pos 8443),
  or_default_idem c.read_timeout (pos 10_000_000_000),
  or_default_idem c.write_timeout (pos 10_000_000_000),
  or_default_idem c.idle_timeout (pos 60_000_000_000),
  or_default_idem c.max_header_bytes (pos 1_048_576),
)

rdap_defaults_idem : (c : RdapConfig) → rdap_defaults (rdap_defaults c) ≡ rdap_defaults c
unfolding rdap_defaults
rdap_defaults_idem c = cc (
  or_default_idem c.max_domain_len (pos 253),
  or_default_idem c.max_search_limit (pos 100),
  or_text_idem c.registrar_base_url c.base_url,
  or_text_idem c.version (str "1.2"),
)

-- The defaults of a configuration with defaults are itself.
pub set_defaults_idempotent : (c : Config) → set_defaults (set_defaults c) ≡ set_defaults c
unfolding set_defaults
set_defaults_idempotent c = cc (
  server_defaults_idem c.server,
  rdap_defaults_idem c.rdap,
  or_default_idem c.whois.port (pos 43),
  or_default_idem c.metrics.port (pos 9090),
  or_default_idem c.rate.requests (pos 100),
  or_default_idem c.rate.window (pos 60_000_000_000),
)
