-- ===== src/Rdap/Models.antt =====
-- internal/rdap/models.go: the RDAP JSON response types. A slice that may be nil is a list, nil
-- being the empty one: both are left out of the JSON text by `omitempty`.
use go_rdap_server.Base.{Bool, Option, List, [], ◌∷◌, GoString, ℤ}
use go_rdap_server.Domain.{Assoc}

-- `interface{}` values as encoding/json makes and reads them.
mutual
  pub data Json : Type 0 where
    null : Json
    bool : Bool → Json
    number : ℤ → Json
    text : GoString → Json
    array : Items → Json
    object : Members → Json

  pub data Items : Type 0 where
    nil : Items
    cons : Json → Items → Items

  pub data Members : Type 0 where
    end : Members
    member : GoString → Json → Members → Members

-- []interface{}{…}
abbrev pub items : List Json → Items
items [] = nil
items (j ∷ js) = cons j (items js)

pub record Conformance : Type 0 where
  pub conformance : List GoString

pub record Link : Type 0 where
  pub value : GoString
  pub rel : GoString
  pub href : GoString
  pub kind : GoString
  pub title : GoString

pub record Event : Type 0 where
  pub event_action : GoString
  pub event_date : GoString
  pub event_actor : GoString

pub record Notice : Type 0 where
  pub title : GoString
  pub kind : GoString
  pub description : List GoString
  pub links : List Link

pub record Remark : Type 0 where
  pub title : GoString
  pub kind : GoString
  pub description : List GoString
  pub links : List Link

pub record PublicId : Type 0 where
  pub id_type : GoString
  pub identifier : GoString

pub record Cidr0 : Type 0 where
  pub v4_prefix : GoString
  pub v6_prefix : GoString
  pub length : ℤ

-- The fields of `Common` but for the embedded entities.
pub record Header : Type 0 where
  pub object_class_name : GoString
  pub handle : GoString
  pub links : List Link
  pub events : List Event
  pub notices : List Notice
  pub remarks : List Remark
  pub port43 : GoString
  pub status : List GoString

-- The fields of `Entity` but for `Common` and the networks.
pub record EntityInfo : Type 0 where
  pub vcard_array : List Json
  pub roles : List GoString
  pub public_ids : List PublicId
  pub as_event_actor : Bool

-- The fields of `IPNetwork` but for `Common`.
pub record IpNetworkInfo : Type 0 where
  pub start_address : GoString
  pub end_address : GoString
  pub ip_version : GoString
  pub cidr : List GoString
  pub name : GoString
  pub kind : GoString
  pub country : GoString
  pub parent_handle : GoString
  pub cidr0_cidrs : List Cidr0

mutual
  pub data Common : Type 0 where
    common : Header → Entities → Common

  pub data Entity : Type 0 where
    entity : Common → EntityInfo → Networks → Entity

  pub data Entities : Type 0 where
    nil : Entities
    cons : Entity → Entities → Entities

  pub data IpNetwork : Type 0 where
    ip_network : Common → IpNetworkInfo → IpNetwork

  pub data Networks : Type 0 where
    no_networks : Networks
    add_network : IpNetwork → Networks → Networks

abbrev pub header : Common → Header
header (common h es) = h

abbrev pub embedded : Common → Entities
embedded (common h es) = es

abbrev pub entity_common : Entity → Common
entity_common (entity c i ns) = c

abbrev pub entity_info : Entity → EntityInfo
entity_info (entity c i ns) = i

abbrev pub network_common : IpNetwork → Common
network_common (ip_network c i) = c

abbrev pub network_info : IpNetwork → IpNetworkInfo
network_info (ip_network c i) = i

abbrev pub entity_list : Entities → List Entity
entity_list nil = []
entity_list (cons e es) = e ∷ entity_list es

pub record Ttl0Data : Type 0 where
  pub values : Assoc GoString ℤ
  pub remarks : List Remark

pub record VariantName : Type 0 where
  pub ldh_name : GoString
  pub unicode_name : GoString

pub record Variant : Type 0 where
  pub relation : List GoString
  pub idn_table : GoString
  pub variant_names : List VariantName

pub record IpAddrSet : Type 0 where
  pub v4 : List GoString
  pub v6 : List GoString

pub record Nameserver : Type 0 where
  pub common : Common
  pub ldh_name : GoString
  pub unicode_name : GoString
  pub ip_addresses : Option IpAddrSet
  pub ttl0_data : Option Ttl0Data

pub record DsData : Type 0 where
  pub key_tag : ℤ
  pub algorithm : ℤ
  pub digest_type : ℤ
  pub digest : GoString
  pub events : List Event
  pub links : List Link

pub record KeyData : Type 0 where
  pub flags : ℤ
  pub protocol : ℤ
  pub algorithm : ℤ
  pub public_key : GoString
  pub events : List Event
  pub links : List Link

pub record SecureDns : Type 0 where
  pub zone_signed : Bool
  pub delegation_signed : Bool
  pub max_sig_life : Option ℤ
  pub ds_data : List DsData
  pub key_data : List KeyData

pub record Domain : Type 0 where
  pub common : Common
  pub conformance : Conformance
  pub ldh_name : GoString
  pub unicode_name : GoString
  pub variants : List Variant
  pub nameservers : List Nameserver
  pub secure_dns : Option SecureDns
  pub network : Option IpNetwork
  pub notices : List Notice
  pub public_ids : List PublicId
  pub ttl0_data : Option Ttl0Data
