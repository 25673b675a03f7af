-- ===== src/Domain.antt =====
-- internal/domain/models.go and internal/domain/vcard.go: the canonical registry data.
-- A pointer that may be nil is an `Option`. A Go map is an association list: its keys are found by
-- the first entry, and a loop over a map, whose order Go leaves open, goes through the list as it
-- stands. A `time.Time` is the number of nanoseconds since the start of the year 1 (UTC), so its
-- zero value is 0.
mod GoMap
pub use GoMap.{Assoc, lookup-put}
unfoldable pub use GoMap.{lookup, put}
use go_rdap_server.Base.{ℕ, Bool, Option, List, GoString, ℤ}

abbrev pub Time : Type 0
Time = ℕ

abbrev pub ContactRole : Type 0
ContactRole = GoString

pub record HistoryEntry : Type 0 where
  pub version : ℤ
  pub changed_at : Time
  pub action : GoString
  pub actor : GoString
  pub snapshot : GoString

pub record AuditEntry : Type 0 where
  pub timestamp : Time
  pub actor : GoString
  pub action : GoString
  pub detail : GoString

pub record Metadata : Type 0 where
  pub version : ℤ
  pub created_at : Time
  pub updated_at : Time
  pub updated_by : GoString
  pub source : GoString
  pub history : List HistoryEntry
  pub audit : List AuditEntry

pub record Status : Type 0 where
  pub value : GoString
  pub reason : GoString
  pub actor : GoString

pub record VCardAddress : Type 0 where
  pub country_code : GoString
  pub po_box : GoString
  pub extended : GoString
  pub street : GoString
  pub locality : GoString
  pub region : GoString
  pub postal_code : GoString
  pub country_name : GoString

pub record VCard : Type 0 where
  pub version : GoString
  pub full_name : GoString
  pub kind : GoString
  pub organization : GoString
  pub address : Option VCardAddress
  pub voice_tel : GoString
  pub fax_tel : GoString
  pub email : GoString
  pub contact_uri : GoString

pub record PublicId : Type 0 where
  pub id_type : GoString
  pub identifier : GoString

-- The fields of a contact but for its nested entities.
pub record ContactInfo : Type 0 where
  pub handle : GoString
  pub roles : List ContactRole
  pub status : List Status
  pub vcard : Option VCard
  pub public_ids : List PublicId
  pub privacy : GoString
  pub registrar_id : GoString
  pub registrar_base_url : GoString
  pub metadata : Metadata

mutual
  pub data Contact : Type 0 where
    contact : ContactInfo → Contacts → Contact

  pub data Contacts : Type 0 where
    nil : Contacts
    cons : Contact → Contacts → Contacts

abbrev pub info : Contact → ContactInfo
info (contact i nested) = i

pub record NameServer : Type 0 where
  pub handle : GoString
  pub ldh_name : GoString
  pub unicode_name : GoString
  pub ipv4 : List GoString
  pub ipv6 : List GoString
  pub status : List Status
  pub metadata : Metadata

pub record DsRecord : Type 0 where
  pub key_tag : ℤ
  pub algorithm : ℤ
  pub digest_type : ℤ
  pub digest : GoString

pub record KeyRecord : Type 0 where
  pub flags : ℤ
  pub protocol : ℤ
  pub algorithm : ℤ
  pub public_key : GoString

pub record SecureDns : Type 0 where
  pub zone_signed : Bool
  pub delegation_signed : Bool
  pub max_sig_life : Option ℤ
  pub ds_records : List DsRecord
  pub key_records : List KeyRecord

pub record Domain : Type 0 where
  pub handle : GoString
  pub ldh_name : GoString
  pub unicode_name : GoString
  pub tld : GoString
  pub status : List Status
  pub expires_at : Time
  pub contacts : Assoc ContactRole (List GoString)
  pub nameservers : List NameServer
  pub secure_dns : Option SecureDns
  pub registrar : GoString
  pub metadata : Metadata

pub record DomainAggregate : Type 0 where
  pub domain : Domain
  pub registrar : Option Contact
  pub contacts : Assoc GoString Contact
  pub nameservers : Assoc GoString NameServer

pub record IpNetwork : Type 0 where
  pub handle : GoString
  pub start_address : GoString
  pub end_address : GoString
  pub ip_version : GoString
  pub cidr : List GoString
  pub name : GoString
  pub kind : GoString
  pub country : GoString
  pub status : List Status
  pub parent_handle : GoString
  pub metadata : Metadata

pub record Autnum : Type 0 where
  pub handle : GoString
  pub start_asn : ℕ
  pub end_asn : ℕ
  pub name : GoString
  pub kind : GoString
  pub country : GoString
  pub status : List Status
  pub metadata : Metadata
