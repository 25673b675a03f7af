-- ===== src/Store/Memory/Seed/Objects.antt =====
-- internal/store/memory.go: the objects of the sample data. A year is 365 days of 24 hours, in nanoseconds.
use go_rdap_server.Base.{ℕ, ◌+◌, ◌-◌, false, none, some, [], ◌∷◌, GoString, str, pos}
use go_rdap_server.Domain.{
  Time, Metadata, Status, VCard, VCardAddress, Contact, contact, nil, cons, ContactInfo, NameServer,
  Domain, IpNetwork, Autnum,
}

abbrev year : ℕ
year = 31_536_000_000_000_000

abbrev seed_metadata : Time → Metadata
seed_metadata now = record {
  version = pos 1;
  created_at = now - year;
  updated_at = now;
  updated_by = [];
  source = str "seed";
  history = [];
  audit = [];
}

abbrev no_metadata : Metadata
no_metadata = record {
  version = pos 0;
  created_at = 0;
  updated_at = 0;
  updated_by = [];
  source = [];
  history = [];
  audit = [];
}

abbrev status : GoString → Status
status v = record { value = v; reason = []; actor = [] }

abbrev us_address : (street locality region postal_code : GoString) → VCardAddress
us_address street locality region postal_code = record {
  country_code = str "US";
  po_box = [];
  extended = [];
  street = street;
  locality = locality;
  region = region;
  postal_code = postal_code;
  country_name = [];
}

abbrev plain_card : (name voice email : GoString) → VCard
plain_card name voice email = record {
  version = str "4.0";
  full_name = name;
  kind = [];
  organization = [];
  address = none;
  voice_tel = voice;
  fax_tel = [];
  email = email;
  contact_uri = [];
}

abbrev plain_contact : GoString → GoString → VCard → Metadata → ContactInfo
plain_contact handle role card metadata = record {
  handle = handle;
  roles = role ∷ [];
  status = status (str "active") ∷ [];
  vcard = some card;
  public_ids = [];
  privacy = [];
  registrar_id = [];
  registrar_base_url = [];
  metadata = metadata;
}

abbrev abuse_contact : Contact
abuse_contact =
    contact
      (plain_contact (str "ABUSE-NAME") (str "abuse")
        (plain_card (str "Abuse Contact") (str "tel:+1-555-123-4567") (str "abuse@example.com"))
        no_metadata)
      nil

abbrev registrar_card : VCard
registrar_card = record {
  version = str "4.0";
  full_name = str "Example Registrar Inc.";
  kind = str "org";
  organization = str "Example Registrar Inc.";
  address = some (us_address (str "123 Maple Ave") (str "Los Angeles") (str "CA") (str "90210"));
  voice_tel = [];
  fax_tel = [];
  email = [];
  contact_uri = [];
}

unfoldable pub seed_registrar : Time → Contact
seed_registrar now =
    contact
      (record {
        handle = str "2";
        roles = str "registrar" ∷ [];
        status = status (str "active") ∷ [];
        vcard = some registrar_card;
        public_ids = record { id_type = str "IANA Registrar ID"; identifier = str "2" } ∷ [];
        privacy = [];
        registrar_id = str "2";
        registrar_base_url = str "https://rdap.example.org/rdap/";
        metadata = seed_metadata now;
      })
      (cons abuse_contact nil)

unfoldable pub seed_technical : Time → Contact
seed_technical now =
    contact
      (plain_contact (str "888") (str "technical")
        (plain_card (str "Example Technical Contact") [] (str "tech@example.com"))
        (seed_metadata now))
      nil

abbrev registrant_card : VCard
registrant_card = record {
  version = str "4.0";
  full_name = str "Example Registrant";
  kind = str "individual";
  organization = str "Example Organization";
  address = some (us_address (str "123 Elm Street") (str "Springfield") (str "IL") (str "62701"));
  voice_tel = str "tel:+1-217-555-0132";
  fax_tel = [];
  email = str "registrant@example.com";
  contact_uri = [];
}

unfoldable pub seed_registrant : Time → Contact
seed_registrant now =
    contact (plain_contact (str "REG1-NAME") (str "registrant") registrant_card (seed_metadata now))
      nil

unfoldable pub seed_nameserver : Time → (handle name v4 v6 : GoString) → NameServer
seed_nameserver now handle name v4 v6 = record {
  handle = handle;
  ldh_name = name;
  unicode_name = name;
  ipv4 = v4 ∷ [];
  ipv6 = v6 ∷ [];
  status = status (str "associated") ∷ [];
  metadata = seed_metadata now;
}

abbrev pub ns1 : Time → NameServer
ns1 now =
    seed_nameserver now (str "NS1-NAME") (str "ns1.example.com") (str "8.8.8.8")
      (str "2001:4860:4860::8888")

abbrev pub ns2 : Time → NameServer
ns2 now =
    seed_nameserver now (str "NS2-NAME") (str "ns2.example.com") (str "1.1.1.1")
      (str "2606:4700:4700::1111")

unfoldable pub seed_domain : Time → Domain
seed_domain now = record {
  handle = str "EX1-NAME";
  ldh_name = str "example.com";
  unicode_name = str "example.com";
  tld = str "com";
  status = status (str "active") ∷ [];
  expires_at = now + year;
  contacts =
      (str "registrant", str "REG1-NAME" ∷ [])
      ∷ (str "technical", str "888" ∷ [])
      ∷ (str "registrar", str "2" ∷ [])
      ∷ [];
  nameservers = ns1 now ∷ ns2 now ∷ [];
  secure_dns = some (record {
    zone_signed = false;
    delegation_signed = false;
    max_sig_life = none;
    ds_records = [];
    key_records = [];
  });
  registrar = str "2";
  metadata = seed_metadata now;
}

unfoldable pub seed_ip_network : Time → IpNetwork
seed_ip_network now = record {
  handle = str "NET-8-8-8-0-24";
  start_address = str "8.8.8.0";
  end_address = str "8.8.8.255";
  ip_version = str "v4";
  cidr = str "8.8.8.0/24" ∷ [];
  name = str "GOOGLE";
  kind = str "ALLOCATED";
  country = str "US";
  status = status (str "active") ∷ [];
  parent_handle = [];
  metadata = seed_metadata now;
}

unfoldable pub seed_autnum : Time → Autnum
seed_autnum now = record {
  handle = str "AS15169";
  start_asn = 15169;
  end_asn = 15169;
  name = str "GOOGLE";
  kind = str "DIRECT ALLOCATION";
  country = str "US";
  status = status (str "active") ∷ [];
  metadata = seed_metadata now;
}
