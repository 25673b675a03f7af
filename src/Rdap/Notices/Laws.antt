-- ===== src/Rdap/Notices/Laws.antt =====
-- The notices of a response, whatever the operator configures.
use go_rdap_server.Base.{
  ◌≡◌, ◌≢◌, ◌⊎◌, ◌++◌, str_eq, refl, Option, none, some, List, [], ◌∷◌, map, In, All, arith, inl,
  inr, length, GoString, str, str_eq_iff,
}
use go_rdap_server.Rdap.Models.{Notice, Link}
use go_rdap_server.Rdap.Notices.{
  NoticeOptions, CustomNotice, new_notices_with_icann, build_tos_notice, custom_notices,
  custom_notice, status_codes_notice, inaccuracy_notice, help_url, or_else, rate_notice,
}

-- A notice with one link, which leads somewhere and says where from.
abbrev pub IsLinked : GoString → Notice → Type 0
IsLinked request_url n =
    (l : Link) × (n.links ≡ l ∷ []) × (l.value ≡ request_url) × (l.href ≢ []) × (l.rel ≢ [])

abbrev pub custom_of : Option NoticeOptions → List CustomNotice
custom_of none = []
custom_of (some opts) = opts.custom

help_url-ne-nil : (base_url : GoString) → help_url base_url ≢ []
help_url-ne-nil [] = cc
help_url-ne-nil (b ∷ s) = cc

or_else-ne-nil : (s t : GoString) → t ≢ [] → or_else s t ≢ []
or_else-ne-nil s t h = ground (arith, str_eq_iff s [])

custom-All :
    (request_url base_url : GoString) (cs : List CustomNotice)
    → All (IsLinked request_url) (map (custom_notice request_url base_url) cs)
unfolding custom_notice
custom-All request_url base_url [] = tt
custom-All request_url base_url (c ∷ cs) = (
  (
    _,
    refl,
    refl,
    or_else-ne-nil c.url (help_url base_url) (help_url-ne-nil base_url),
    or_else-ne-nil c.rel (str "terms-of-service") (cc),
  ),
  custom-All request_url base_url cs,
)

tos-IsLinked :
    (request_url base_url : GoString) (opts : Option NoticeOptions)
    → IsLinked request_url (build_tos_notice request_url base_url opts)
unfolding build_tos_notice
tos-IsLinked request_url base_url none = (_, refl, refl, help_url-ne-nil base_url, cc)
tos-IsLinked request_url base_url (some opts) =
    (_, refl, refl, or_else-ne-nil opts.tos_url (help_url base_url) (help_url-ne-nil base_url), cc)

-- A notice as the operator configures it; without a target it leads to the help page, and without a
-- relation it is of the terms of service.
abbrev pub Shows : GoString → CustomNotice → Notice → Type 0
Shows base_url c n =
    (n.title ≡ c.title)
    × (n.description ≡ c.description)
    × (l : Link) × (n.links ≡ l ∷ [])
    × (((c.url ≡ []) × (l.href ≡ base_url ++ str "/help")) ⊎ ((c.url ≢ []) × (l.href ≡ c.url)))
    × (((c.rel ≡ []) × (l.rel ≡ str "terms-of-service")) ⊎ ((c.rel ≢ []) × (l.rel ≡ c.rel)))

-- One notice for each custom one, in their order.
abbrev pub ShowsEach : GoString → List CustomNotice → List Notice → Type 0
ShowsEach base_url [] [] = Unit
ShowsEach base_url [] (n ∷ ns) = ⊥
ShowsEach base_url (c ∷ cs) [] = ⊥
ShowsEach base_url (c ∷ cs) (n ∷ ns) = Shows base_url c n × ShowsEach base_url cs ns

-- A notice of this title with a link to this target.
abbrev pub HasNotice : GoString → GoString → List Notice → Type 0
HasNotice title href ns =
    (n : Notice) × In n ns × (n.title ≡ title) × (l : Link) × (n.links ≡ l ∷ []) × (l.href ≡ href)

or_else-cases : (s t : GoString) → ((s ≡ []) × (or_else s t ≡ t)) ⊎ ((s ≢ []) × (or_else s t ≡ s))
unfolding str_eq
or_else-cases [] t = inl (refl, refl)
or_else-cases (b ∷ s) t = inr (cc, refl)

custom_notices-ShowsEach :
    (request_url base_url : GoString) (cs : List CustomNotice)
    → ShowsEach base_url cs (map (custom_notice request_url base_url) cs)
unfolding custom_notice str_eq
custom_notices-ShowsEach request_url base_url [] = tt
custom_notices-ShowsEach request_url base_url (c ∷ cs) = (
  (
    refl,
    refl,
    _,
    refl,
    or_else-cases c.url (help_url base_url),
    or_else-cases c.rel (str "terms-of-service"),
  ),
  custom_notices-ShowsEach request_url base_url cs,
)

customs-All :
    (request_url base_url : GoString) (opts : Option NoticeOptions)
    → All (IsLinked request_url) (custom_notices request_url base_url opts)
      × ShowsEach base_url (custom_of opts) (custom_notices request_url base_url opts)
unfolding custom_notices
customs-All request_url base_url none = (tt, tt)
customs-All request_url base_url (some opts) = (
  custom-All request_url base_url opts.custom,
  custom_notices-ShowsEach request_url base_url opts.custom,
)

-- Whatever the options, the notices are four standard ones, among them one titled "Status Codes"
-- that leads to https://icann.org/epp and one titled "RDDS Inaccuracy Complaint Form" that leads to
-- https://icann.org/wicf, and behind them one for each custom notice, in their order, with its
-- title and description and its target and relation or their defaults; and every notice has one
-- link, whose value is the request's URL and whose target and relation are not empty.
pub new_notices_with_icann_lem :
    (request_url base_url : GoString) (opts : Option NoticeOptions)
    → let all = new_notices_with_icann request_url base_url opts in
      ((standard customs : List Notice) × (all ≡ standard ++ customs)
        × (length standard ≡ 4)
        × HasNotice (str "Status Codes") (str "https://icann.org/epp") standard
        × HasNotice (str "RDDS Inaccuracy Complaint Form") (str "https://icann.org/wicf") standard
        × ShowsEach base_url (custom_of opts) customs)
      × All (IsLinked request_url) all
unfolding new_notices_with_icann
new_notices_with_icann_lem request_url base_url opts =
    let (linked, shown) = customs-All request_url base_url opts in
    (
      (
        build_tos_notice request_url base_url opts
            ∷ rate_notice request_url base_url
            ∷ status_codes_notice request_url
            ∷ inaccuracy_notice request_url
            ∷ [],
        custom_notices request_url base_url opts,
        refl,
        refl,
        (_, inr (inr (inl refl)), refl, _, refl, refl),
        (_, inr (inr (inr (inl refl))), refl, _, refl, refl),
        shown,
      ),
      (
        tos-IsLinked request_url base_url opts,
        (
          (_, refl, refl, help_url-ne-nil base_url, cc),
          ((_, refl, refl, cc, cc), ((_, refl, refl, cc, cc), linked)),
        ),
      ),
    )
