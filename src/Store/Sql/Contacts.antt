-- ===== src/Store/Sql/Contacts.antt =====
-- The loop of GetDomainAggregate over the handles of a domain, in an SQL transaction.
use go_rdap_server.Base.{
  ◌≡◌, refl, Bool, true, not, ◌&&◌, ◌||◌, Option, none, some, is_some, List, [], ◌∷◌, ◌∙◌, arith,
  if◌then◌else◌, is_empty, Result, ok, err, GoString, str_eq, str_eq_iff,
}
use go_rdap_server.Domain.{Assoc, lookup, lookup-put, put, Domain, DomainAggregate, Contact}
use go_rdap_server.Config.{is_listed}
use go_rdap_server.Store.Memory.Aggregate.{in_roles}
use go_rdap_server.Store.Sql.{
  add_handles, add_role_handles, handle_set, put_contact, resolve_contacts,
}

-- The value that was read, if it was.
abbrev pub found : {A : Type 0} → Result GoString A → Option A
found (ok a) = some a
found (err e) = none

-- The handles that the loop visits: the registrar's unless it is empty, and those of the contacts.
abbrev pub is_referred : Domain → GoString → Bool
is_referred d h = (not (is_empty d.registrar) && str_eq d.registrar h) || in_roles h d.contacts

abbrev pub visited : GoString → Assoc GoString Bool → Bool
visited h m = is_some (lookup h m)

visited-add_handles :
    (h : GoString) (hs : List GoString) (m : Assoc GoString Bool)
    → visited h (add_handles hs m) ≡ (is_listed h hs || visited h m)
unfolding add_handles is_listed
visited-add_handles h [] m = refl
visited-add_handles h (k ∷ hs) m =
    ground (arith, visited-add_handles h hs (put k true m), lookup-put k h true m)

visited-add_role_handles :
    (h : GoString) (roles : Assoc GoString (List GoString)) (m : Assoc GoString Bool)
    → visited h (add_role_handles roles m) ≡ (in_roles h roles || visited h m)
unfolding add_role_handles
visited-add_role_handles h [] m = refl
visited-add_role_handles h ((role, hs) ∷ more) m =
    ground (arith, visited-add_role_handles h more (add_handles hs m), visited-add_handles h hs m)

pub visited-handle_set : (h : GoString) (d : Domain) → visited h (handle_set d) ≡ is_referred d h
unfolding handle_set lookup
visited-handle_set h d = ground (
  arith,
  visited-add_role_handles h d.contacts
      (if is_empty d.registrar then [] else put d.registrar true []),
  lookup-put d.registrar h true [],
)

module _ (fetch : GoString → Result GoString Contact) where
  domain-put_contact :
      (k : GoString) (r : Result GoString Contact) (agg : DomainAggregate)
      → (put_contact fetch k r agg).domain ≡ agg.domain
  domain-put_contact k (err e) agg = refl
  domain-put_contact k (ok c) agg = refl

  nameservers-put_contact :
      (k : GoString) (r : Result GoString Contact) (agg : DomainAggregate)
      → (put_contact fetch k r agg).nameservers ≡ agg.nameservers
  nameservers-put_contact k (err e) agg = refl
  nameservers-put_contact k (ok c) agg = refl

  contacts-put_contact :
      (h k : GoString) (r : Result GoString Contact) (agg : DomainAggregate)
      → lookup h (put_contact fetch k r agg).contacts
        ≡ (if str_eq k h && is_some (found r) then found r else lookup h agg.contacts)
  contacts-put_contact h k (err e) agg = ground arith
  contacts-put_contact h k (ok c) agg = ground (arith, lookup-put k h c agg.contacts)

  registrar-put_contact :
      (k : GoString) (r : Result GoString Contact) (agg : DomainAggregate)
      → (put_contact fetch k r agg).registrar
        ≡ (if str_eq k agg.domain.registrar && is_some (found r) then found r else agg.registrar)
  registrar-put_contact k (err e) agg = ground arith
  registrar-put_contact k (ok c) agg = ground arith

  pub domain-resolve_contacts :
      (m : Assoc GoString Bool) (agg : DomainAggregate)
      → (resolve_contacts fetch m agg).domain ≡ agg.domain
  unfolding resolve_contacts
  domain-resolve_contacts [] agg = refl
  domain-resolve_contacts ((k, b) ∷ m) agg =
      domain-resolve_contacts m (put_contact fetch k (fetch k) agg)
      ∙ domain-put_contact k (fetch k) agg

  pub nameservers-resolve_contacts :
      (m : Assoc GoString Bool) (agg : DomainAggregate)
      → (resolve_contacts fetch m agg).nameservers ≡ agg.nameservers
  unfolding resolve_contacts
  nameservers-resolve_contacts [] agg = refl
  nameservers-resolve_contacts ((k, b) ∷ m) agg =
      nameservers-resolve_contacts m (put_contact fetch k (fetch k) agg)
      ∙ nameservers-put_contact k (fetch k) agg

  pub contacts-resolve_contacts :
      (h : GoString) (m : Assoc GoString Bool) (agg : DomainAggregate)
      → lookup h (resolve_contacts fetch m agg).contacts ≡ (
          if visited h m && is_some (found (fetch h))
          then found (fetch h)
          else lookup h agg.contacts)
  unfolding resolve_contacts lookup
  contacts-resolve_contacts h [] agg = refl
  contacts-resolve_contacts h ((k, b) ∷ m) agg = ground (
    arith,
    contacts-resolve_contacts h m (put_contact fetch k (fetch k) agg),
    contacts-put_contact h k (fetch k) agg,
    str_eq_iff k h,
  )

  pub registrar-resolve_contacts :
      (m : Assoc GoString Bool) (agg : DomainAggregate)
      → (resolve_contacts fetch m agg).registrar ≡ (
          if visited agg.domain.registrar m && is_some (found (fetch agg.domain.registrar))
          then found (fetch agg.domain.registrar)
          else agg.registrar)
  unfolding resolve_contacts lookup
  registrar-resolve_contacts [] agg = refl
  registrar-resolve_contacts ((k, b) ∷ m) agg = ground (
    arith,
    registrar-resolve_contacts m (put_contact fetch k (fetch k) agg),
    registrar-put_contact k (fetch k) agg,
    domain-put_contact k (fetch k) agg,
    str_eq_iff k agg.domain.registrar,
  )
