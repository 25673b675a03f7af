-- ===== src/Service/JCard.antt =====
-- internal/service/service.go: vcardToJCard, and the example cards that domainToRDAP falls back to.
pub mod Name
use go_rdap_server.Base.{
  Option, none, some, List, [], ◌∷◌, ◌++◌, if◌then◌else◌, GoString, str, str_eq,
}
use go_rdap_server.Domain.{VCard, VCardAddress}
use go_rdap_server.Rdap.Models.{Json, text, array, object, Members, end, member, items}

-- []interface{}{name, params, type, value}
abbrev pub property : GoString → Members → GoString → Json → Json
property name params kind value = array (items (text name ∷ object params ∷ text kind ∷ value ∷ []))

abbrev pub text_property : GoString → GoString → Json
text_property name value = property name end (str "text") (text value)

-- map[string]interface{}{"type": []interface{}{kind}}
abbrev pub tel_property : GoString → GoString → Json
tel_property kind value =
    property (str "tel") (member (str "type") (array (items (text kind ∷ []))) end) (str "uri")
      (text value)

-- []interface{}{"vcard", props}
abbrev pub card : List Json → List Json
card props = text (str "vcard") ∷ array (items props) ∷ []

abbrev pub version_property : Json
version_property = text_property (str "version") (str "4.0")

-- if value != "" { props = append(props, p) }
abbrev pub when_set : GoString → Json → List Json
when_set value p = if str_eq value [] then [] else p ∷ []

abbrev pub address_property : VCardAddress → Json
address_property a =
    property (str "adr")
      (if str_eq a.country_code [] then end else member (str "cc") (text a.country_code) end)
      (str "text")
      (array (
        items (
          text a.po_box
          ∷ text a.extended
          ∷ text a.street
          ∷ text a.locality
          ∷ text a.region
          ∷ text a.postal_code
          ∷ text a.country_name
          ∷ [])))

abbrev pub address_properties : Option VCardAddress → List Json
address_properties none = []
address_properties (some a) = address_property a ∷ []

-- The properties behind `fn`.
unfoldable pub optional_properties : VCard → List Json
optional_properties v =
    when_set v.kind (text_property (str "kind") v.kind)
    ++ (when_set v.organization (text_property (str "org") v.organization)
        ++ (address_properties v.address
            ++ (when_set v.voice_tel (tel_property (str "voice") v.voice_tel)
                ++ (when_set v.fax_tel (tel_property (str "fax") v.fax_tel)
                    ++ (when_set v.email (text_property (str "email") v.email)
                        ++ when_set v.contact_uri
                            (property (str "contact-uri") end (str "uri") (text v.contact_uri)))))))

abbrev pub name_or : Option VCard → GoString → GoString
name_or none fallback = fallback
name_or (some v) fallback = if str_eq v.full_name [] then fallback else v.full_name

unfoldable pub card_properties : Option VCard → GoString → List Json
unfolding optional_properties
card_properties none fallback = version_property ∷ text_property (str "fn") fallback ∷ []
card_properties (some v) fallback =
    version_property ∷ text_property (str "fn") (name_or (some v) fallback) ∷ optional_properties v

unfoldable pub vcard_to_jcard : Option VCard → GoString → List Json
unfolding card_properties
vcard_to_jcard v fallback = card (card_properties v fallback)

abbrev example_address : GoString → GoString → GoString → GoString → Json
example_address street locality region postal_code =
    property (str "adr") (member (str "cc") (text (str "US")) end) (str "text") (
      array (
        items (
          text []
          ∷ text []
          ∷ text street
          ∷ text locality
          ∷ text region
          ∷ text postal_code
          ∷ text []
          ∷ [])))

unfoldable pub example_registrar_card : List Json
example_registrar_card = card (
    version_property
    ∷ text_property (str "fn") (str "Example Registrar Inc.")
    ∷ example_address (str "123 Maple Ave") (str "Los Angeles") (str "CA") (str "90210")
    ∷ [])

unfoldable pub abuse_card : List Json
abuse_card = card (
    version_property
    ∷ text_property (str "fn") (str "Abuse Contact")
    ∷ tel_property (str "voice") (str "tel:+1-555-123-4567")
    ∷ text_property (str "email") (str "abuse@example.com")
    ∷ [])

unfoldable pub example_registrant_card : List Json
example_registrant_card = card (
    version_property
    ∷ text_property (str "fn") (str "Example Registrant")
    ∷ text_property (str "org") (str "Example Organization")
    ∷ example_address (str "123 Elm Street") (str "Springfield") (str "IL") (str "62701")
    ∷ tel_property (str "voice") (str "tel:+1-217-555-0132")
    ∷ text_property (str "email") (str "registrant@example.com")
    ∷ [])
