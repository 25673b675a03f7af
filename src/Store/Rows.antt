-- ===== src/Store/Rows.antt =====
-- internal/store/mapping.go: from the JSON columns of a database row to registry objects. Decoding
-- the JSON text (encoding/json) is done before: `none` is an error of json.Unmarshal.
pub mod RoundTrip
use go_rdap_server.Base.{
  Bool, true, false, Option, none, some, List, [], ◌∷◌, ◌++◌, map, if◌then◌else◌, GoString, str,
  str_eq, ℤ, is_empty,
}
use go_rdap_server.Domain.{
  Status, NameServer, SecureDns, DsRecord, KeyRecord, VCard, VCardAddress, Metadata,
}
use go_rdap_server.Rdap.Models.{Json, text, array, object, Items, nil, cons, Members, end, member}

-- The columns; those of DNSSEC hold the records of package domain.
pub record NsJson : Type 0 where
  pub handle : GoString
  pub ldh_name : GoString
  pub unicode_name : GoString
  pub ipv4 : List GoString
  pub ipv6 : List GoString
  pub status : List GoString

pub record SecureDnsJson : Type 0 where
  pub zone_signed : Bool
  pub delegation_signed : Bool
  pub max_sig_life : Option ℤ
  pub ds_data : List DsRecord
  pub key_data : List KeyRecord

abbrev pub plain_status : GoString → Status
plain_status v = record { value = v; reason = []; actor = [] }

unfoldable pub parse_status_val : List GoString → List Status
parse_status_val vals = map plain_status vals

unfoldable pub parse_status : Option (List GoString) → List Status
unfolding parse_status_val
parse_status none = []
parse_status (some vals) = parse_status_val vals

unfoldable pub status_strings : List Status → List GoString
status_strings status = map (λ s. s.value) status

abbrev no_metadata : Metadata
no_metadata = record {
  version = ℤ.pos 0;
  created_at = 0;
  updated_at = 0;
  updated_by = [];
  source = [];
  history = [];
  audit = [];
}

abbrev to_nameserver : NsJson → NameServer
to_nameserver n = record {
  handle = n.handle;
  ldh_name = n.ldh_name;
  unicode_name = n.unicode_name;
  ipv4 = n.ipv4;
  ipv6 = n.ipv6;
  status = parse_status_val n.status;
  metadata = no_metadata;
}

unfoldable pub parse_nameservers : Option (List NsJson) → List NameServer
parse_nameservers none = []
parse_nameservers (some items) = map to_nameserver items

-- Nothing for an empty column, and for one that does not decode.
unfoldable pub parse_secure_dns : GoString → Option SecureDnsJson → Option SecureDns
parse_secure_dns [] decoded = none
parse_secure_dns (b ∷ bs) none = none
parse_secure_dns (b ∷ bs) (some s) = some (record {
  zone_signed = s.zone_signed;
  delegation_signed = s.delegation_signed;
  max_sig_life = s.max_sig_life;
  ds_records = s.ds_data;
  key_records = s.key_data;
})

-- v.(string), with "" where it is none
unfoldable pub str_of : Json → GoString
str_of (text s) = s
str_of j = []

-- params[key] of a value that should be a map, the last entry for a repeated key
unfoldable pub member_of : GoString → Members → Option Json
member_of key end = none
member_of key (member k v more) = elim (member_of key more) [
  | some w ↦ some w
  | none ↦ if str_eq k key then some v else none
]

abbrev member_text : GoString → Json → GoString
member_text key (object ms) = elim (member_of key ms) [ none ↦ [] | some v ↦ str_of v ]
member_text key j = []

abbrev empty_address : GoString → VCardAddress
empty_address cc = record {
  country_code = cc;
  po_box = [];
  extended = [];
  street = [];
  locality = [];
  region = [];
  postal_code = [];
  country_name = [];
}

-- The seven elements of the value, if it has as many.
unfoldable pub address_of : GoString → Json → VCardAddress
address_of cc (array (cons a (cons b (cons c (cons d (cons e (cons f (cons g more)))))))) = record {
  country_code = cc;
  po_box = str_of a;
  extended = str_of b;
  street = str_of c;
  locality = str_of d;
  region = str_of e;
  postal_code = str_of f;
  country_name = str_of g;
}
address_of cc j = empty_address cc

abbrev is_text : Json → Bool
is_text (text s) = true
is_text j = false

-- The switch on the name of a property, for a value that is text.
unfoldable pub set_text : GoString → Json → GoString → VCard → VCard
set_text name params s v =
    if str_eq name (str "fn")
    then record v { full_name = s }
    else if str_eq name (str "kind")
    then record v { kind = s }
    else if str_eq name (str "org")
    then record v { organization = s }
    else if str_eq name (str "tel")
    then (if str_eq (member_text (str "type") params) (str "fax")
        then record v { fax_tel = s }
        else record v { voice_tel = s })
    else if str_eq name (str "email")
    then record v { email = s }
    else if str_eq name (str "contact-uri")
    then record v { contact_uri = s }
    else v

-- The same switch for a value that is none; `adr` is read whatever its value is.
unfoldable pub set_property : GoString → Json → Json → VCard → VCard
unfolding set_text address_of
set_property name params value v =
    if str_eq name (str "adr")
    then record v { address = some (address_of (member_text (str "cc") params) value) }
    else if is_text value
    then set_text name params (str_of value) v
    else v

-- One round of the loop: a property of fewer than four elements is skipped.
unfoldable pub read_property : Json → VCard → VCard
unfolding set_property
read_property (array (cons name (cons params (cons kind (cons value more))))) v =
    set_property (str_of name) params value v
read_property j v = v

unfoldable pub read_properties : Items → VCard → VCard
unfolding read_property
read_properties nil v = v
read_properties (cons p ps) v = read_properties ps (read_property p v)

abbrev pub empty_vcard : VCard
empty_vcard = record {
  version = str "4.0";
  full_name = [];
  kind = [];
  organization = [];
  address = none;
  voice_tel = [];
  fax_tel = [];
  email = [];
  contact_uri = [];
}

-- parseVCardJSON, for the decoded elements of the array.
unfoldable pub parse_vcard : List Json → Option VCard
unfolding read_properties
parse_vcard (tag ∷ array props ∷ more) = some (read_properties props empty_vcard)
parse_vcard other = none
