-- ===== src/Store/Rows/RoundTrip.antt =====
-- A contact card that is written as a jCard and read back from it.
use go_rdap_server.Base.{
  ◌≡◌, ◌≢◌, refl, sym, ap, ◌∙◌, Option, none, some, List, [], ◌∷◌, ◌++◌, GoString, str, str_eq,
  if◌then◌else◌,
}
use go_rdap_server.Domain.{VCard, VCardAddress}
use go_rdap_server.Rdap.Models.{Json, text, items, end}
use go_rdap_server.Service.JCard.{
  property, text_property, tel_property, when_set, address_property, address_properties,
  optional_properties, name_or, vcard_to_jcard,
}
use go_rdap_server.Store.Rows.{
  read_property, read_properties, empty_vcard, parse_vcard, str_of, member_of,
}

read_properties-append :
    (xs ys : List Json) (w : VCard)
    → read_properties (items (xs ++ ys)) w
      ≡ read_properties (items ys) (read_properties (items xs) w)
unfolding read_properties
read_properties-append [] ys w = refl
read_properties-append (x ∷ xs) ys w = read_properties-append xs ys (read_property x w)

-- One lemma for each property: into a card that lacks it, its value is read as it was written.
module _ (w : VCard) where
  read_kind :
      (s : GoString)
      → w.kind ≡ []
      → read_properties (items (when_set s (text_property (str "kind") s))) w
        ≡ record w { kind = s }
  unfolding read_properties str_eq member_of str_of
  read_kind [] e = λ i. record w { kind = e i }
  read_kind (c ∷ s) e = refl

  read_org :
      (s : GoString)
      → w.organization ≡ []
      → read_properties (items (when_set s (text_property (str "org") s))) w
        ≡ record w { organization = s }
  unfolding read_properties str_eq member_of str_of
  read_org [] e = λ i. record w { organization = e i }
  read_org (c ∷ s) e = refl

  read_email :
      (s : GoString)
      → w.email ≡ []
      → read_properties (items (when_set s (text_property (str "email") s))) w
        ≡ record w { email = s }
  unfolding read_properties str_eq member_of str_of
  read_email [] e = λ i. record w { email = e i }
  read_email (c ∷ s) e = refl

  read_contact_uri :
      (s : GoString)
      → w.contact_uri ≡ []
      → read_properties
          (items (when_set s (property (str "contact-uri") end (str "uri") (text s))))
          w
        ≡ record w { contact_uri = s }
  unfolding read_properties str_eq member_of str_of
  read_contact_uri [] e = λ i. record w { contact_uri = e i }
  read_contact_uri (c ∷ s) e = refl

  -- A telephone number of either kind goes to `voice_tel`.
  read_tel :
      (kind s : GoString)
      → read_properties (items (when_set s (tel_property kind s))) w
        ≡ record w { voice_tel = if str_eq s [] then w.voice_tel else s }
  unfolding read_properties str_eq member_of str_of
  read_tel kind [] = refl
  read_tel kind (c ∷ s) = refl

  read_address_in :
      (a : VCardAddress) (code : GoString)
      → read_properties (items (address_property (record a { country_code = code }) ∷ [])) w
        ≡ record w { address = some (record a { country_code = code }) }
  unfolding read_properties str_eq member_of str_of
  read_address_in a [] = refl
  read_address_in a (c ∷ s) = refl

  read_address :
      (a : Option VCardAddress)
      → w.address ≡ none
      → read_properties (items (address_properties a)) w ≡ record w { address = a }
  unfolding read_properties
  read_address none e = λ i. record w { address = e i }
  read_address (some a) e = read_address_in a a.country_code

-- The properties behind `xs` are read into what `xs` leaves.
read_then :
    (xs : List Json) (w : VCard) {u : VCard} (ys : List Json)
    → read_properties (items xs) w ≡ u
    → read_properties (items (xs ++ ys)) w ≡ read_properties (items ys) u
read_then xs w ys e = read_properties-append xs ys w ∙ ap (λ u. read_properties (items ys) u) e

abbrev named_vcard : GoString → VCard
named_vcard name = record empty_vcard { full_name = name }

unfoldable pub number_of : GoString → GoString → GoString
number_of voice fax = if str_eq fax [] then (if str_eq voice [] then [] else voice) else fax

number_of-no_fax : (voice : GoString) {fax : GoString} → fax ≡ [] → number_of voice fax ≡ voice
unfolding number_of str_eq
number_of-no_fax [] h = rw h refl
number_of-no_fax (c ∷ s) h = rw h refl

number_of-fax : (voice fax : GoString) → fax ≢ [] → number_of voice fax ≡ fax
unfolding number_of str_eq
number_of-fax voice [] h = absurd (h refl)
number_of-fax voice (c ∷ s) h = refl

nonempty_or : (s fallback : GoString) → s ≢ [] → (if str_eq s [] then fallback else s) ≡ s
unfolding str_eq
nonempty_or [] fallback h = absurd (h refl)
nonempty_or (c ∷ s) fallback h = refl

name_or-set :
    (v : VCard) (fallback : GoString) → v.full_name ≢ [] → name_or (some v) fallback ≡ v.full_name
name_or-set v fallback h = nonempty_or v.full_name fallback h

-- The number that is read back as the voice number: the fax number, if there is one.
abbrev pub number_read_back : VCard → GoString
number_read_back v = number_of v.voice_tel v.fax_tel

read_optional_properties :
    (v : VCard) (name : GoString)
    → read_properties (items (optional_properties v)) (named_vcard name) ≡ record v {
      version = str "4.0";
      full_name = name;
      voice_tel = number_read_back v;
      fax_tel = [];
    }
unfolding optional_properties number_of
read_optional_properties v name =
    read_then _ _ _ (read_kind _ v.kind refl)
    ∙ read_then _ _ _ (read_org _ v.organization refl)
    ∙ read_then _ _ _ (read_address _ v.address refl)
    ∙ read_then _ _ _ (read_tel _ (str "voice") v.voice_tel)
    ∙ read_then _ _ _ (read_tel _ (str "fax") v.fax_tel)
    ∙ read_then _ _ _ (read_email _ v.email refl)
    ∙ read_contact_uri _ v.contact_uri refl

read_back :
    (v : VCard) (fallback : GoString)
    → parse_vcard (vcard_to_jcard (some v) fallback)
      ≡ some (record v {
        version = str "4.0";
        full_name = name_or (some v) fallback;
        voice_tel = number_read_back v;
        fax_tel = [];
      })
unfolding parse_vcard vcard_to_jcard read_properties str_eq str_of
read_back v fallback = ap some (read_optional_properties v (name_or (some v) fallback))

-- A card of version 4.0 with a name and no fax number is read back as it was.
pub parse_vcard-vcard_to_jcard :
    (v : VCard) (fallback : GoString)
    → v.version ≡ str "4.0"
    → v.full_name ≢ []
    → v.fax_tel ≡ []
    → parse_vcard (vcard_to_jcard (some v) fallback) ≡ some v
parse_vcard-vcard_to_jcard v fallback hv hn hf = read_back v fallback ∙ (λ i. some (record v {
  version = sym hv i;
  full_name = name_or-set v fallback hn i;
  voice_tel = number_of-no_fax v.voice_tel hf i;
  fax_tel = sym hf i;
}))

-- A fax number is read back as the voice number, whatever the voice number was, and as no fax
-- number.
pub parse_vcard-vcard_to_jcard_fax :
    (v : VCard) (fallback : GoString)
    → v.fax_tel ≢ []
    → parse_vcard (vcard_to_jcard (some v) fallback)
      ≡ some (record v {
        version = str "4.0";
        full_name = name_or (some v) fallback;
        voice_tel = v.fax_tel;
        fax_tel = [];
      })
parse_vcard-vcard_to_jcard_fax v fallback hf = read_back v fallback ∙ (λ i. some (record v {
  version = str "4.0";
  full_name = name_or (some v) fallback;
  voice_tel = number_of-fax v.voice_tel v.fax_tel hf i;
  fax_tel = [];
}))
