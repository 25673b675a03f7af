-- ===== src/Whois/Lookup.antt =====
-- internal/whois/store.go: the lookup behind the gateway.
use go_rdap_server.Base.{
  Bool, false, not, ◌&&◌, Option, none, some, List, [], ◌∷◌, ◌++◌, map, if◌then◌else◌, Result, ok,
  err, GoString, str, str_eq, Unicode, to_lower, trim_suffix, equal_fold, join,
}
use go_rdap_server.Domain.{
  Assoc, lookup, Status, Contact, info, ContactInfo, VCard, VCardAddress, PublicId, SecureDns,
  DomainAggregate,
}
use go_rdap_server.Store.Interface.{Interface}
use go_rdap_server.Whois.Types.{WhoisContact, WhoisDomain, LookupError, not_found}

-- The values that are not empty.
unfoldable pub non_empty : List GoString → List GoString
non_empty [] = []
non_empty (s ∷ more) = let rest = non_empty more in if str_eq s [] then rest else s ∷ rest

unfoldable pub status_strings : List Status → List GoString
unfolding non_empty
status_strings status = non_empty (map (λ s. s.value) status)

unfoldable pub address_line : Option VCardAddress → GoString
unfolding non_empty
address_line none = []
address_line (some a) =
    join (str ", ")
      (non_empty (a.street ∷ a.locality ∷ a.region ∷ a.postal_code ∷ a.country_name ∷ []))

-- Whether a contact's data is withheld.
abbrev pub is_private : ContactInfo → Bool
is_private c = not (str_eq c.privacy []) && not (str_eq c.privacy (str "public"))

abbrev or_text : GoString → GoString → GoString
or_text s d = if str_eq s [] then d else s

abbrev with_vcard : GoString → ContactInfo → Option VCard → WhoisContact
with_vcard role c none = record {
  role = role;
  name = c.handle;
  org = [];
  email = [];
  phone = [];
  address = [];
  redacted = is_private c;
}
with_vcard role c (some v) = record {
  role = role;
  name = or_text v.full_name c.handle;
  org = v.organization;
  email = or_text v.email v.contact_uri;
  phone = v.voice_tel;
  address = address_line v.address;
  redacted = is_private c;
}

unfoldable pub contact_to_whois : GoString → Contact → WhoisContact
unfolding address_line
contact_to_whois role c = with_vcard role (info c) (info c).vcard

abbrev display_name : Option VCard → GoString → GoString
display_name none handle = handle
display_name (some v) handle =
    if not (str_eq v.full_name [])
    then v.full_name
    else if not (str_eq v.organization [])
    then v.organization
    else handle

unfoldable pub contact_display_name : Contact → GoString
contact_display_name c = display_name (info c).vcard (info c).handle

unfoldable pub role_contacts : Assoc GoString Contact → GoString → List GoString → List WhoisContact
unfolding contact_to_whois
role_contacts found role [] = []
role_contacts found role (h ∷ hs) =
    let rest = role_contacts found role hs in
    elim (lookup h found) [ none ↦ rest | some c ↦ contact_to_whois role c ∷ rest ]

unfoldable pub all_contacts :
    Assoc GoString Contact → Assoc GoString (List GoString) → List WhoisContact
unfolding role_contacts
all_contacts found [] = []
all_contacts found ((role, handles) ∷ more) =
    role_contacts found role handles ++ all_contacts found more

abbrev delegation_signed : Option SecureDns → Bool
delegation_signed none = false
delegation_signed (some s) = s.delegation_signed

abbrev registrar_name : Option Contact → GoString
registrar_name none = []
registrar_name (some c) = contact_display_name c

abbrev first_id : List PublicId → GoString
first_id [] = []
first_id (i ∷ is') = i.identifier

abbrev registrar_ids : Option Contact → GoString
registrar_ids none = []
registrar_ids (some c) = first_id (info c).public_ids

module _ (u : Unicode) where
  -- The loop for the top-level field: the first registrant with a name.
  unfoldable pub registrant_name : List WhoisContact → GoString
  registrant_name [] = []
  registrant_name (c ∷ cs) =
      let rest = registrant_name cs in
      if equal_fold u c.role (str "registrant") && not (str_eq c.name []) then c.name else rest

  unfoldable pub domain_to_whois : DomainAggregate → WhoisDomain
  unfolding status_strings contact_display_name all_contacts registrant_name
  domain_to_whois agg =
      let d = agg.domain in
      let contacts = all_contacts agg.contacts d.contacts in
      record {
        ldh_name = d.ldh_name;
        unicode_name = d.unicode_name;
        status = status_strings d.status;
        registrar = registrar_name agg.registrar;
        registrar_id = registrar_ids agg.registrar;
        registrant = registrant_name contacts;
        contacts = contacts;
        nameservers =
            map (λ ns. record { name = ns.ldh_name; ipv4 = ns.ipv4; ipv6 = ns.ipv6 }) d.nameservers;
        created_at = d.metadata.created_at;
        updated_at = d.metadata.updated_at;
        expires_at = d.expires_at;
        dnssec = delegation_signed d.secure_dns;
      }

  unfoldable pub store_lookup : Interface → GoString → Result LookupError WhoisDomain
  unfolding domain_to_whois
  store_lookup st name = elim (st.get_domain_aggregate (to_lower u (trim_suffix b'.' name))) [
    | err e ↦ err not_found
    | ok agg ↦ ok (domain_to_whois agg)
  ]
