-- ===== src/Tests/Protocol.antt =====
-- Names, notices, conformance, the configuration, WHOIS answers and cards.
use go_rdap_server.Base.{
  ◌++◌, true, ◌≡◌, ◌↔◌, refl, true, some, List, [], ◌∷◌, inl, ok, err, Result, GoString, str,
  str_eq, All, length, to_lower, trim_space, trim_left, trim_right, is_ascii_text, is_space,
  lower_byte, trim_suffix, split,
}
use go_rdap_server.Rdap.Names.{validate_ldh_name, normalize_domain_name}
use go_rdap_server.Rdap.Names.Ldh.{
  IsLdhName, validate_ldh_name_iff, normalize_domain_name-IsLdhName,
}
use go_rdap_server.Rdap.Models.{Notice}
use go_rdap_server.Rdap.Notices.{NoticeOptions, new_notices_with_icann}
use go_rdap_server.Rdap.Notices.Laws.{
  IsLinked, HasNotice, ShowsEach, custom_of, new_notices_with_icann_lem,
}
use go_rdap_server.Config.{Config, load, validate, set_defaults, set_mode, is_listed, rdap_defaults}
use go_rdap_server.Config.Checked.{IsChecked, load-IsChecked}
use go_rdap_server.Whois.Types.{WhoisContact, WhoisDomain, LookupError, not_found}
use go_rdap_server.Whois.Render.{contact_blocks}
use go_rdap_server.Whois.Privacy.{contact_blocks-redacted}
use go_rdap_server.Service.JCard.{vcard_to_jcard}
use go_rdap_server.Store.Rows.{parse_vcard}
use go_rdap_server.Store.Rows.RoundTrip.{parse_vcard-vcard_to_jcard, parse_vcard-vcard_to_jcard_fax}
use go_rdap_server.Tests.Data.{unicode, idna, config, vcard}

validate_ldh_name_iff_example : (validate_ldh_name (str "a.b") ≡ true) ↔ IsLdhName (str "a.b")
validate_ldh_name_iff_example = validate_ldh_name_iff (str "a.b")

normalize_domain_name-IsLdhName_example : IsLdhName (str "a-1.b")
unfolding normalize_domain_name to_lower lower_byte trim_space trim_left trim_right is_ascii_text
    is_space trim_suffix split validate_ldh_name
normalize_domain_name-IsLdhName_example =
    normalize_domain_name-IsLdhName unicode idna (str "A-1.B.") (str "a-1.b") (str "a-1.b") refl

abbrev extensions : List GoString
extensions = str "ttl0" ∷ [] ∷ str "ttl0" ∷ []

abbrev options : NoticeOptions
options = record {
  tos_title = [];
  tos_description = [];
  tos_url = [];
  custom = record { title = str "x"; description = []; url = []; rel = [] } ∷ [];
}

abbrev all_notices : List Notice
all_notices = new_notices_with_icann (str "r") (str "u") (some options)

new_notices_with_icann_lem_example :
    ((standard customs : List Notice) × (all_notices ≡ standard ++ customs)
      × (length standard ≡ 4)
      × HasNotice (str "Status Codes") (str "https://icann.org/epp") standard
      × HasNotice (str "RDDS Inaccuracy Complaint Form") (str "https://icann.org/wicf") standard
      × ShowsEach (str "u") (custom_of (some options)) customs)
    × All (IsLinked (str "r")) all_notices
new_notices_with_icann_lem_example = new_notices_with_icann_lem (str "r") (str "u") (some options)

abbrev decode_yaml : GoString → Result GoString Config
decode_yaml text = ok config

load-IsChecked_example :
    IsChecked (record (set_defaults config) { rdap = set_mode (rdap_defaults config.rdap) })
unfolding load validate set_defaults set_mode is_listed str_eq
load-IsChecked_example =
    load-IsChecked (ok (str "yaml")) decode_yaml
      (record (set_defaults config) { rdap = set_mode (rdap_defaults config.rdap) }) refl

abbrev hidden : GoString → WhoisContact
hidden name = record {
  role = str "registrant";
  name = name;
  org = [];
  email = [];
  phone = [];
  address = [];
  redacted = true;
}

contact_blocks-redacted_example :
    contact_blocks unicode (hidden (str "Ann") ∷ [])
    ≡ contact_blocks unicode (hidden (str "Bob") ∷ [])
contact_blocks-redacted_example =
    contact_blocks-redacted unicode (hidden (str "Ann") ∷ []) (hidden (str "Bob") ∷ [])
      (refl, refl, inl refl, tt)

abbrev nothing : GoString → Result LookupError WhoisDomain
nothing name = err not_found

abbrev broken : GoString → Result LookupError WhoisDomain
broken name = err (LookupError.other name)

parse_vcard-vcard_to_jcard_example :
    parse_vcard (vcard_to_jcard (some vcard) (str "R1")) ≡ some vcard
parse_vcard-vcard_to_jcard_example = parse_vcard-vcard_to_jcard vcard (str "R1") refl (cc) refl

parse_vcard-vcard_to_jcard_fax_example :
    parse_vcard (vcard_to_jcard (some (record vcard { fax_tel = str "+2" })) (str "R1"))
    ≡ some (record vcard { voice_tel = str "+2" })
unfolding str_eq
parse_vcard-vcard_to_jcard_fax_example =
    parse_vcard-vcard_to_jcard_fax (record vcard { fax_tel = str "+2" }) (str "R1") (cc)
