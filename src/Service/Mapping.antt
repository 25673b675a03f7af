-- ===== src/Service/Mapping.antt =====
-- internal/service/service.go: the functions from registry objects to RDAP objects.
-- `rfc3339` is time.Time's Format(time.RFC3339) after UTC().
pub mod Network
pub mod Modes
use go_rdap_server.Base.{
  Bool, true, false, ◌&&◌, Option, none, some, List, [], ◌∷◌, ◌++◌, map, head?, if◌then◌else◌,
  GoString, str, str_eq, trim_right, ◌==◌, ℤ,
}
use go_rdap_server.Domain.{
  Time, lookup, Status, Contact, contact, Contacts, ContactInfo, info, NameServer, DomainAggregate,
  ContactRole,
}
use go_rdap_server.Domain
use go_rdap_server.Rdap.Models.{
  Conformance, Link, Event, Notice, PublicId, Header, Common, common, Entity, entity, EntityInfo,
  Entities, nil, cons, Networks, no_networks, SecureDns, Nameserver, Ttl0Data, Json,
}
use go_rdap_server.Rdap.Models
use go_rdap_server.Rdap.Notices.{NoticeOptions, new_notices_with_icann, link}
use go_rdap_server.Rdap.Conformance.{new_conformance_2024, with_extensions}
use go_rdap_server.Service.Extensions.{Extensions, ttl0_data}
use go_rdap_server.Service.JCard.{
  vcard_to_jcard, example_registrar_card, abuse_card, example_registrant_card,
}

unfoldable pub status_values : List Status → List GoString
status_values = map (λ st. st.value)

unfoldable pub role_strings : List ContactRole → List GoString
role_strings = map (λ r. r)

unfoldable pub public_ids_to_rdap : List Domain.PublicId → List PublicId
public_ids_to_rdap = map (λ i. record { id_type = i.id_type; identifier = i.identifier })

abbrev pub rdap_json : GoString
rdap_json = str "application/rdap+json"

abbrev pub self_link : GoString → Link
self_link url = link url (str "self") url rdap_json

abbrev pub event : GoString → GoString → Event
event action date = record { event_action = action; event_date = date; event_actor = [] }

-- A `Common` with these fields, the others at their zero values.
abbrev pub plain_header : GoString → GoString → List GoString → List Event → List Link → Header
plain_header class_name handle status events links = record {
  object_class_name = class_name;
  handle = handle;
  links = links;
  events = events;
  notices = [];
  remarks = [];
  port43 = [];
  status = status;
}

abbrev pub plain_entity : Header → Entities → List GoString → List PublicId → List Json → Entity
plain_entity h nested roles ids vcard =
    entity (common h nested)
      (record { vcard_array = vcard; roles = roles; public_ids = ids; as_event_actor = false })
      no_networks

abbrev ttl0_ns_data : Option Extensions → Option Ttl0Data
ttl0_ns_data none = none
ttl0_ns_data (some ext) = if ext.ttl0 then ttl0_data ext.ttl0_ns ext.ttl0_remarks else none

abbrev nameserver_url : GoString → NameServer → GoString
nameserver_url base_url ns = base_url ++ str "/nameserver/" ++ ns.ldh_name

abbrev nameserver_object : List Event → NameServer → GoString → Option Extensions → Nameserver
nameserver_object events ns base_url ext = record {
  common =
      common
        (plain_header (str "nameserver") ns.handle (status_values ns.status) events
          (self_link (nameserver_url base_url ns) ∷ []))
        nil;
  ldh_name = ns.ldh_name;
  unicode_name = ns.unicode_name;
  ip_addresses = some (record { v4 = ns.ipv4; v6 = ns.ipv6 });
  ttl0_data = ttl0_ns_data ext;
}

unfoldable pub secure_dns_to_rdap : Option Domain.SecureDns → SecureDns
secure_dns_to_rdap none = record {
  zone_signed = false;
  delegation_signed = false;
  max_sig_life = none;
  ds_data = [];
  key_data = [];
}
secure_dns_to_rdap (some s) = record {
  zone_signed = s.zone_signed;
  delegation_signed = s.delegation_signed;
  max_sig_life = s.max_sig_life;
  ds_data = [];
  key_data = [];
}

abbrev pub is_registrar_mode : GoString → Bool
is_registrar_mode mode = str_eq mode (str "registrar")

-- agg != nil && agg.Registrar != nil
unfoldable pub registrar_card : Option DomainAggregate → List Json
registrar_card none = example_registrar_card
registrar_card (some agg) = elim agg.registrar [
  | none ↦ example_registrar_card
  | some c ↦ vcard_to_jcard (info c).vcard (info c).handle
]

unfoldable pub abuse_entity : Entity
abuse_entity =
    plain_entity (plain_header (str "entity") (str "ABUSE-NAME") (str "active" ∷ []) [] []) nil
      (str "abuse" ∷ []) [] abuse_card

unfoldable pub registrar_entity : Domain.Domain → Option DomainAggregate → GoString → Entity
unfolding registrar_card abuse_entity
registrar_entity d agg registrar_base_url =
    plain_entity
      (plain_header (str "entity") d.registrar (str "active" ∷ []) []
        (link registrar_base_url (str "about") registrar_base_url rdap_json ∷ []))
      (cons abuse_entity nil) (str "registrar" ∷ [])
      (record { id_type = str "IANA Registrar ID"; identifier = d.registrar } ∷ [])
      (registrar_card agg)

-- d.Contacts[domain.RoleRegistrant], nil if the key is missing
abbrev registrant_handle : Domain.Domain → Option GoString
registrant_handle d = elim (lookup (str "registrant") d.contacts) [
  | none ↦ none
  | some handles ↦ head? handles
]

abbrev resolved_card : Option Contact → List Json
resolved_card none = example_registrant_card
resolved_card (some c) = vcard_to_jcard (info c).vcard (info c).handle

-- The handle and the card of the registrant entity.
unfoldable pub registrant_fields : Domain.Domain → Option DomainAggregate → GoString × List Json
registrant_fields d none = (str "REG1-NAME", example_registrant_card)
registrant_fields d (some agg) = elim (registrant_handle d) [
  | none ↦ (str "REG1-NAME", example_registrant_card)
  | some h ↦ (h, resolved_card (lookup h agg.contacts))
]

unfoldable pub registrant_entity : Domain.Domain → Option DomainAggregate → Entity
unfolding registrant_fields
registrant_entity d agg =
    let (handle, vcard) = registrant_fields d agg in
    plain_entity (plain_header (str "entity") handle (str "active" ∷ []) [] []) nil
      (str "registrant" ∷ []) [] vcard

unfoldable pub domain_entities :
    Domain.Domain → Option DomainAggregate → GoString → GoString → Entities
unfolding registrar_entity registrant_entity
domain_entities d agg registrar_base_url mode =
    cons (registrar_entity d agg registrar_base_url)
      (if is_registrar_mode mode then cons (registrant_entity d agg) nil else nil)

abbrev domain_conformance : Option Extensions → Conformance
domain_conformance none = new_conformance_2024
domain_conformance (some ext) =
    if ext.ttl0
    then with_extensions new_conformance_2024 (str "ttl0" ∷ [])
    else new_conformance_2024

abbrev ttl0_domain_data : Option Extensions → Option Ttl0Data
ttl0_domain_data none = none
ttl0_domain_data (some ext) = if ext.ttl0 then ttl0_data ext.ttl0_domain ext.ttl0_remarks else none

module _ (rfc3339 : Time → GoString) where
  -- rdap.FormatTime
  unfoldable pub format_time : Time → GoString
  format_time t = if t == 0 then [] else rfc3339 t

  abbrev registration_events : Domain.Metadata → List Event
  registration_events m =
      event (str "registration") (format_time m.created_at)
      ∷ event (str "last changed") (format_time m.updated_at)
      ∷ []

  unfoldable pub domain_events : Domain.Domain → GoString → List Event
  unfolding format_time
  domain_events d mode =
      registration_events d.metadata
      ++ event (str "expiration") (format_time d.expires_at)
        ∷ event (str "last update of RDAP database") (format_time d.metadata.updated_at)
        ∷ (if is_registrar_mode mode
            then event (str "registrar expiration") (format_time d.expires_at) ∷ []
            else [])

  unfoldable pub domain_to_rdap :
      Domain.Domain
      → Option DomainAggregate
      → (base_url request_url registrar_base_url : GoString) → (mode : GoString)
      → Option NoticeOptions
      → Option Extensions
      → Models.Domain
  unfolding domain_events domain_entities secure_dns_to_rdap
  domain_to_rdap d agg base_url request_url registrar_base_url mode opts ext = record {
    common =
        common
          (plain_header (str "domain") d.handle (status_values d.status) (domain_events d mode) (
            link request_url (str "self") (base_url ++ str "/domain/" ++ d.ldh_name) rdap_json
            ∷ link request_url (str "related")
                (trim_right (λ c. c == b'/') registrar_base_url ++ str "/domain/" ++ d.ldh_name)
                rdap_json
            ∷ []))
          (domain_entities d agg registrar_base_url mode);
    conformance = domain_conformance ext;
    ldh_name = d.ldh_name;
    unicode_name = d.unicode_name;
    variants = [];
    nameservers = map (λ ns. nameserver_object [] ns base_url ext) d.nameservers;
    secure_dns = some (secure_dns_to_rdap d.secure_dns);
    network = none;
    notices = new_notices_with_icann request_url base_url opts;
    public_ids = [];
    ttl0_data = ttl0_domain_data ext;
  }

  unfoldable pub entity_to_rdap : Contact → GoString → Entity
  unfolding format_time
  entity_to_rdap (contact c nested) base_url =
      plain_entity
        (plain_header (str "entity") c.handle (status_values c.status)
          (registration_events c.metadata)
          (self_link (base_url ++ str "/entity/" ++ c.handle) ∷ []))
        nil (role_strings c.roles) (public_ids_to_rdap c.public_ids) []

  unfoldable pub nameserver_to_rdap : NameServer → GoString → Option Extensions → Nameserver
  unfolding format_time
  nameserver_to_rdap ns base_url ext =
      nameserver_object (registration_events ns.metadata) ns base_url ext
