-- ===== src/Rdap/Notices.antt =====
-- internal/rdap/rdap.go: notices, and the body of the help response.
pub mod Laws
use go_rdap_server.Base.{
  ℕ, Bool, true, false, not, Option, none, some, List, [], ◌∷◌, ◌++◌, map, is_empty, if◌then◌else◌,
  GoString, str, str_eq, ℤ, is_positive, show_int,
}
use go_rdap_server.Rdap.Models.{Link, Notice, Conformance}
use go_rdap_server.Rdap.Responses.{Help}
use go_rdap_server.Rdap.Conformance.{new_conformance}

pub record CustomNotice : Type 0 where
  pub title : GoString
  pub description : List GoString
  pub url : GoString
  pub rel : GoString

pub record NoticeOptions : Type 0 where
  pub tos_title : GoString
  pub tos_description : List GoString
  pub tos_url : GoString
  pub custom : List CustomNotice

-- `window` is a time.Duration, in nanoseconds.
pub record RateLimitInfo : Type 0 where
  pub enabled : Bool
  pub requests : ℤ
  pub window : ℤ
  pub burst : ℤ

abbrev pub link : GoString → GoString → GoString → GoString → Link
link value rel href kind = record { value = value; rel = rel; href = href; kind = kind; title = [] }

abbrev pub notice : GoString → List GoString → Link → Notice
notice title description l = record {
  title = title;
  kind = [];
  description = description;
  links = l ∷ [];
}

abbrev pub or_else : GoString → GoString → GoString
or_else s t = if str_eq s [] then t else s

-- fmt.Sprintf("%s/help", baseURL)
abbrev pub help_url : GoString → GoString
help_url base_url = base_url ++ str "/help"

abbrev tos_fields : GoString → Option NoticeOptions → GoString × List GoString × GoString
tos_fields base_url none = (
  str "Terms of Service",
  str "Use of this RDAP server is subject to the registrar's terms of service." ∷ [],
  help_url base_url,
)
tos_fields base_url (some opts) = (
  or_else opts.tos_title (str "Terms of Service"),
  if is_empty opts.tos_description
      then str "Use of this RDAP server is subject to the registrar's terms of service." ∷ []
      else opts.tos_description,
  or_else opts.tos_url (help_url base_url),
)

unfoldable pub build_tos_notice : GoString → GoString → Option NoticeOptions → Notice
build_tos_notice request_url base_url opts =
    let (title, desc, href) = tos_fields base_url opts in
    notice title desc (link request_url (str "terms-of-service") href (str "text/html"))

abbrev rate_text : GoString
rate_text = str "Access to this RDAP server is rate-limited. Excessive queries may be throttled."

unfoldable pub new_notices : GoString → Option NoticeOptions → List Notice
unfolding build_tos_notice
new_notices base_url opts =
    build_tos_notice base_url base_url opts
    ∷ notice (str "Rate Limiting") (rate_text ∷ [])
        (link base_url (str "rate-limit-policy") (help_url base_url) (str "application/rdap+json"))
    ∷ []

-- One round of the loop over opts.Custom.
unfoldable pub custom_notice : GoString → GoString → CustomNotice → Notice
custom_notice value base_url c = notice c.title c.description (
    link value (or_else c.rel (str "terms-of-service")) (or_else c.url (help_url base_url))
      (str "text/html"))

unfoldable pub custom_notices : GoString → GoString → Option NoticeOptions → List Notice
unfolding custom_notice
custom_notices value base_url none = []
custom_notices value base_url (some opts) = map (custom_notice value base_url) opts.custom

abbrev pub status_codes_notice : GoString → Notice
status_codes_notice request_url =
    notice (str "Status Codes")
      (str "For more information on domain status codes, please visit https://icann.org/epp" ∷ [])
      (link request_url (str "glossary") (str "https://icann.org/epp") (str "text/html"))

abbrev pub inaccuracy_notice : GoString → Notice
inaccuracy_notice request_url =
    notice (str "RDDS Inaccuracy Complaint Form")
      (str "URL of the ICANN RDDS Inaccuracy Complaint Form: https://icann.org/wicf" ∷ [])
      (link request_url (str "help") (str "https://icann.org/wicf") (str "text/html"))

abbrev pub rate_notice : GoString → GoString → Notice
rate_notice request_url base_url =
    notice (str "Rate Limiting") (rate_text ∷ [])
      (link request_url (str "service") (help_url base_url) (str "application/rdap+json"))

unfoldable pub new_notices_with_icann : GoString → GoString → Option NoticeOptions → List Notice
unfolding build_tos_notice custom_notices
new_notices_with_icann request_url base_url opts =
    build_tos_notice request_url base_url opts
    ∷ rate_notice request_url base_url
    ∷ status_codes_notice request_url
    ∷ inaccuracy_notice request_url
    ∷ custom_notices request_url base_url opts

unfoldable pub burst_suffix : ℤ → GoString
burst_suffix burst =
    if is_positive burst then str ", with a burst allowance of " ++ show_int burst else []

module _ (show_duration : ℤ → GoString) where
  -- The text of the rate notice; `show_duration` is time.Duration's String.
  unfoldable pub rate_description : RateLimitInfo → GoString
  unfolding burst_suffix
  rate_description rate =
      if rate.enabled
      then str "Access to this RDAP server is rate-limited to "
        ++ show_int rate.requests
        ++ str " requests per "
        ++ show_duration (if is_positive rate.window then rate.window else minute)
        ++ str " per IP address"
        ++ burst_suffix rate.burst
        ++ str "."
      else rate_text
    where
      minute : ℤ
      minute = ℤ.pos 60_000_000_000

  unfoldable pub new_help_notices :
      GoString → Option NoticeOptions → RateLimitInfo → Bool → List Notice
  unfolding rate_description custom_notices
  new_help_notices base_url opts rate search_enabled =
      notice (str "Terms of Service")
        (str "Use of this RDAP server is subject to the registrar's terms of service." ∷ [])
        (link base_url (str "terms-of-service") (help_url base_url) (str "application/rdap+json"))
      ∷ notice (str "Rate Limiting") (rate_description rate ∷ []) (
          link base_url (str "rate-limit-policy") (help_url base_url) (str "application/rdap+json"))
      ∷ ((if search_enabled then [] else search_disabled ∷ [])
          ++ custom_notices base_url base_url opts)
    where
      search_disabled : Notice
      search_disabled =
          notice (str "Search Disabled")
            (str
                "Search queries are not enabled on this RDAP server. Lookup queries (domains, entities, nameservers, IP networks, and autnums) are supported."
              ∷ [])
            (link base_url (str "service") (help_url base_url) (str "application/rdap+json"))

  unfoldable pub new_help : GoString → Option NoticeOptions → RateLimitInfo → Bool → Help
  unfolding new_help_notices
  new_help base_url opts rate search_enabled = record {
    conformance = new_conformance;
    notices = new_help_notices base_url opts rate search_enabled;
    reverse_search_properties = [];
    farv1_open_idc_configuration = none;
  }
