-- ===== src/Service/JCard/Name.antt =====
-- The name of a card.
use go_rdap_server.Base.{
  ◌≡◌, ◌≢◌, refl, Option, none, some, List, [], ◌∷◌, arith, GoString, str, str_eq_iff,
}
use go_rdap_server.Domain.{VCard}
use go_rdap_server.Rdap.Models.{Json}
use go_rdap_server.Service.JCard.{
  vcard_to_jcard, card, version_property, text_property, name_or, card_properties,
}

name_or-ne-nil : (v : Option VCard) (fallback : GoString) → fallback ≢ [] → name_or v fallback ≢ []
name_or-ne-nil none fallback h = h
name_or-ne-nil (some v) fallback h = ground (arith, str_eq_iff v.full_name [])

-- A card starts with the version 4.0 and a name that is not empty, whether the contact has a card, a
-- name in it, or neither, if the name to fall back on is not empty.
pub vcard_to_jcard-name :
    (v : Option VCard) (fallback : GoString)
    → fallback ≢ []
    → (name : GoString) × (more : List Json) × (vcard_to_jcard v fallback
        ≡ card (version_property ∷ text_property (str "fn") name ∷ more))
      × (name ≢ [])
unfolding vcard_to_jcard card_properties
vcard_to_jcard-name none fallback h = (fallback, [], refl, h)
vcard_to_jcard-name (some v) fallback h = (_, _, refl, name_or-ne-nil (some v) fallback h)
