-- ===== src/Store/Sql/Roles.antt =====
-- internal/store/postgres.go and mysql.go: the contacts that the columns of a domain become.
use go_rdap_server.Base.{
  ◌≡◌, refl, ◌∙◌, Option, none, some, false, true, List, [], ◌∷◌, arith, if◌then◌else◌, GoString,
  str, str_eq, str_eq_iff, Option-cases,
}
use go_rdap_server.Domain.{Assoc, lookup, lookup-put}
use go_rdap_server.Store.Sql.{
  populate_domain_contacts, one_contact, text_or_empty, DomainRow, Decoder,
}
use go_rdap_server.Store.Sql.Postgres.{domain_of}

-- The list of one handle, for a column that is not NULL.
abbrev pub alone : Option GoString → Option (List GoString)
alone none = none
alone (some h) = some (h ∷ [])

-- The handles that a role has.
abbrev pub column : DomainRow → GoString → Option (List GoString)
column r role =
    if str_eq (str "billing") role
    then alone r.billing
    else if str_eq (str "technical") role
    then alone r.tech
    else if str_eq (str "administrative") role
    then alone r.admin
    else if str_eq (str "registrant") role
    then alone r.registrant
    else none

abbrev or_else : Option (List GoString) → Option (List GoString) → Option (List GoString)
or_else none b = b
or_else (some a) b = some a

lookup-one_contact :
    (role k : GoString) (o : Option GoString) (m : Assoc GoString (List GoString))
    → lookup role (one_contact k o m)
      ≡ (if str_eq k role then or_else (alone o) (lookup role m) else lookup role m)
lookup-one_contact role k none m = ground arith
lookup-one_contact role k (some h) m = ground (arith, lookup-put k role (h ∷ []) m)

-- No text is two of the roles.
apart : (a b role : GoString) → str_eq a b ≡ false → str_eq a role ≡ true → str_eq b role ≡ false
apart a b role differ h = ground (arith, str_eq_iff a role, str_eq_iff b role, str_eq_iff a b)

-- A role that comes first, where the others do not have it.
lookup-first :
    (role k : GoString) (o : Option GoString) (m : Assoc GoString (List GoString))
    → (str_eq k role ≡ true → lookup role m ≡ none)
    → lookup role (one_contact k o m) ≡ (if str_eq k role then alone o else lookup role m)
lookup-first role k o m fresh = ground (arith, lookup-one_contact role k o m, fresh, Option-cases o)

abbrev registrants : Option GoString → Assoc GoString (List GoString)
registrants r = one_contact (str "registrant") r []

abbrev administrators : Option GoString → Option GoString → Assoc GoString (List GoString)
administrators r a = one_contact (str "administrative") a (registrants r)

abbrev technicians :
    Option GoString → Option GoString → Option GoString → Assoc GoString (List GoString)
technicians r a t = one_contact (str "technical") t (administrators r a)

lookup-registrants :
    (role : GoString) (r : Option GoString)
    → lookup role (registrants r) ≡ (if str_eq (str "registrant") role then alone r else none)
unfolding lookup
lookup-registrants role r = lookup-first role (str "registrant") r [] (λ h. refl)

lookup-administrators :
    (role : GoString) (r a : Option GoString)
    → lookup role (administrators r a)
      ≡ (if str_eq (str "administrative") role then alone a else lookup role (registrants r))
unfolding str_eq
lookup-administrators role r a = lookup-first role (str "administrative") a (registrants r) (λ h.
    lookup-registrants role r
    ∙ rw (apart (str "administrative") (str "registrant") role refl h) refl)

lookup-technicians :
    (role : GoString) (r a t : Option GoString)
    → lookup role (technicians r a t)
      ≡ (if str_eq (str "technical") role then alone t else lookup role (administrators r a))
unfolding str_eq
lookup-technicians role r a t = lookup-first role (str "technical") t (administrators r a) (λ h.
    lookup-administrators role r a
    ∙ rw
        (
          apart (str "technical") (str "administrative") role refl h,
          lookup-registrants role r,
          apart (str "technical") (str "registrant") role refl h,
        )
        refl)

-- A domain that is read from a row has for each of the four roles the contact of its column and no
-- other contacts, and its registrar is its registrant.
pub domain_of-contacts :
    (decode : Decoder) (r : DomainRow) (role : GoString)
    → (lookup role (domain_of decode r).contacts ≡ column r role)
      × ((domain_of decode r).registrar ≡ text_or_empty r.registrant)
unfolding domain_of populate_domain_contacts lookup str_eq
domain_of-contacts decode r role = (
  lookup-first role (str "billing") r.billing (technicians r.registrant r.admin r.tech) (λ h.
        lookup-technicians role r.registrant r.admin r.tech
        ∙ rw
            (
              apart (str "billing") (str "technical") role refl h,
              lookup-administrators role r.registrant r.admin,
              apart (str "billing") (str "administrative") role refl h,
              lookup-registrants role r.registrant,
              apart (str "billing") (str "registrant") role refl h,
            )
            refl)
      ∙ rw
          (
            lookup-technicians role r.registrant r.admin r.tech,
            lookup-administrators role r.registrant r.admin,
            lookup-registrants role r.registrant,
          )
          refl,
  refl,
)
