-- ===== src/Store/Memory/Aggregate.antt =====
-- What an aggregate holds.
use mathlib.Core.Path.{subst}
use go_rdap_server.Base.{
  ◌≡◌, refl, false, Bool, ◌&&◌, ◌||◌, Option, none, is_some, List, [], ◌∷◌, arith, inl, inr,
  if◌then◌else◌, Result, ok, err, GoString, Unicode, str_eq, str_eq_iff, Option-cases,
}
use go_rdap_server.Domain.{Assoc, lookup, lookup-put, Domain, DomainAggregate, Contact, NameServer}
use go_rdap_server.Config.{is_listed}
use go_rdap_server.Store.Interface.{Error}
use go_rdap_server.Store.Memory.{
  MemoryStore, store_key, put_if_found, add_contacts, add_role_contacts, add_nameservers, resolve,
  get_domain_aggregate, lookup_domain,
}

-- The handles that a domain refers to: its registrar's, and those of its contacts.
abbrev pub in_roles : GoString → Assoc GoString (List GoString) → Bool
in_roles h [] = false
in_roles h ((role, handles) ∷ more) = is_listed h handles || in_roles h more

abbrev pub refers_to : Domain → GoString → Bool
refers_to d h = str_eq d.registrar h || in_roles h d.contacts

abbrev pub has_host : GoString → List NameServer → Bool
has_host h [] = false
has_host h (ns ∷ more) = str_eq ns.handle h || has_host h more

-- The entry of the store, if the handle is referred to.
abbrev pub only_if : {V : Type 0} → Bool → Option V → Option V
only_if b o = if b then o else none

abbrev pub map_ok : {A B : Type 0} → (A → B) → Result Error A → Result Error B
map_ok f (ok a) = ok (f a)
map_ok f (err e) = err e

module _ (u : Unicode) (s : MemoryStore) where
  lookup-put_if_found :
      {V : Type 0} (source : Assoc GoString V) (k h : GoString) (target : Assoc GoString V)
      → lookup h (put_if_found u s source k target)
        ≡ (if str_eq k h && is_some (lookup h source) then lookup h source else lookup h target)
  lookup-put_if_found source k h target = elim (Option-cases (lookup k source)) [
    | inl e ↦ rw (e, put_if_found) (ground (arith, str_eq_iff k h, e))
    | inr (v, e) ↦ rw (e, put_if_found, lookup-put) (ground (arith, str_eq_iff k h, e))
  ]

  lookup-add_contacts :
      (h : GoString) (hs : List GoString) (target : Assoc GoString Contact)
      → lookup h (add_contacts u s hs target) ≡ (
          if is_listed h hs && is_some (lookup h s.contacts)
          then lookup h s.contacts
          else lookup h target)
  unfolding add_contacts is_listed
  lookup-add_contacts h [] target = refl
  lookup-add_contacts h (k ∷ hs) target = ground (
    arith,
    lookup-add_contacts h hs (put_if_found u s s.contacts k target),
    lookup-put_if_found s.contacts k h target,
  )

  lookup-add_role_contacts :
      (h : GoString) (roles : Assoc GoString (List GoString)) (target : Assoc GoString Contact)
      → lookup h (add_role_contacts u s roles target) ≡ (
          if in_roles h roles && is_some (lookup h s.contacts)
          then lookup h s.contacts
          else lookup h target)
  unfolding add_role_contacts
  lookup-add_role_contacts h [] target = refl
  lookup-add_role_contacts h ((role, hs) ∷ more) target = ground (
    arith,
    lookup-add_role_contacts h more (add_contacts u s hs target),
    lookup-add_contacts h hs target,
  )

  lookup-add_nameservers :
      (h : GoString) (nss : List NameServer) (target : Assoc GoString NameServer)
      → lookup h (add_nameservers u s nss target) ≡ (
          if has_host h nss && is_some (lookup h s.nameservers)
          then lookup h s.nameservers
          else lookup h target)
  unfolding add_nameservers
  lookup-add_nameservers h [] target = refl
  lookup-add_nameservers h (ns ∷ more) target = ground (
    arith,
    lookup-add_nameservers h more (put_if_found u s s.nameservers ns.handle target),
    lookup-put_if_found s.nameservers ns.handle h target,
  )

  resolve-contacts :
      (d : Domain) (h : GoString)
      → lookup h (resolve u s d).contacts ≡ only_if (refers_to d h) (lookup h s.contacts)
  unfolding resolve lookup
  resolve-contacts d h = ground (
    arith,
    lookup-add_role_contacts h d.contacts (put_if_found u s s.contacts d.registrar []),
    lookup-put_if_found s.contacts d.registrar h [],
    Option-cases (lookup h s.contacts),
  )

  resolve-nameservers :
      (d : Domain) (h : GoString)
      → lookup h (resolve u s d).nameservers
        ≡ only_if (has_host h d.nameservers) (lookup h s.nameservers)
  unfolding resolve lookup
  resolve-nameservers d h =
      ground
        (arith, lookup-add_nameservers h d.nameservers [], Option-cases (lookup h s.nameservers))

  -- An aggregate is that of the domain that LookupDomain finds under the name, with the registrar
  -- that the store has, and it resolves exactly the handles that the domain refers to, each to what
  -- the store holds at it.
  pub record IsSnapshot (name : GoString) (agg : DomainAggregate) : Type 0 where
    pub domain : lookup_domain u s name ≡ ok agg.domain
    pub registrar : agg.registrar ≡ lookup agg.domain.registrar s.contacts
    pub contacts :
        (h : GoString)
        → lookup h agg.contacts ≡ only_if (refers_to agg.domain h) (lookup h s.contacts)
    pub nameservers :
        (h : GoString)
        → lookup h agg.nameservers
          ≡ only_if (has_host h agg.domain.nameservers) (lookup h s.nameservers)

  -- Every aggregate that GetDomainAggregate returns is a snapshot of the store.
  pub get_domain_aggregate-IsSnapshot :
      (name : GoString) (agg : DomainAggregate)
      → get_domain_aggregate u s name ≡ ok agg
      → IsSnapshot name agg
  unfolding get_domain_aggregate lookup_domain
  get_domain_aggregate-IsSnapshot name agg e =
      elim (Option-cases (lookup (store_key u name) s.domains)) [
        | inl missing ↦ cc (rw (missing, get_domain_aggregate) at e)
        | inr (d, found) ↦
            subst (IsSnapshot name) {x = resolve u s d} (cc (rw (found, get_domain_aggregate) at e))
              (record {
                domain = rw (found, lookup_domain) refl;
                registrar = refl;
                contacts = resolve-contacts d;
                nameservers = resolve-nameservers d;
              })
      ]

  -- GetDomainAggregate gives an aggregate of every domain that LookupDomain finds, and fails with
  -- the error of LookupDomain.
  pub get_domain_aggregate-lookup_domain :
      (name : GoString)
      → get_domain_aggregate u s name ≡ map_ok (resolve u s) (lookup_domain u s name)
  unfolding get_domain_aggregate lookup_domain
  get_domain_aggregate-lookup_domain name =
      elim (Option-cases (lookup (store_key u name) s.domains)) [
        | inl missing ↦ rw (missing, get_domain_aggregate, lookup_domain) refl
        | inr (d, found) ↦ rw (found, get_domain_aggregate, lookup_domain) refl
      ]
