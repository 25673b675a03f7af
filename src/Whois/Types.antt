-- ===== src/Whois/Types.antt =====
-- internal/whois/whois.go: what the renderer needs of a domain, and the errors of a lookup.
use go_rdap_server.Base.{Bool, List, GoString}
use go_rdap_server.Domain.{Time}

pub record WhoisContact : Type 0 where
  pub role : GoString
  pub name : GoString
  pub org : GoString
  pub email : GoString
  pub phone : GoString
  pub address : GoString
  pub redacted : Bool

pub record WhoisNameserver : Type 0 where
  pub name : GoString
  pub ipv4 : List GoString
  pub ipv6 : List GoString

pub record WhoisDomain : Type 0 where
  pub ldh_name : GoString
  pub unicode_name : GoString
  pub status : List GoString
  pub registrar : GoString
  pub registrar_id : GoString
  pub registrant : GoString
  pub contacts : List WhoisContact
  pub nameservers : List WhoisNameserver
  pub created_at : Time
  pub updated_at : Time
  pub expires_at : Time
  pub dnssec : Bool

-- ErrNotFound, or another error with its text.
pub data LookupError : Type 0 where
  not_found : LookupError
  other : GoString → LookupError
