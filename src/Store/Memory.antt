-- ===== src/Store/Memory.antt =====
-- internal/store/memory.go: the store, and its lookups. The methods read the maps under a read lock
-- and never write them, so each is a function of the store.
pub mod Search
pub mod Adapter
pub mod Seed
pub mod Limit
pub mod Bounded
pub mod Aggregate
pub mod Related
use go_rdap_server.Base.{
  ℕ, Bool, true, false, ◌||◌, Option, none, some, List, [], ◌∷◌, ◌++◌, map, if◌then◌else◌, Result,
  ok, err, GoString, str, Unicode, to_lower, trim_suffix, equal_fold, ℤ, pos, negsuc, show_int,
  int_eq,
}
use go_rdap_server.Domain.{
  Assoc, lookup, put, Domain, DomainAggregate, Contact, Contacts, NameServer, IpNetwork, Autnum,
}
use go_rdap_server.Store.Interface.{Error, failure}

-- The maps have the names of the fields of the Go struct; the locks are left out.
pub record MemoryStore : Type 0 where
  pub domains : Assoc GoString Domain
  pub contacts : Assoc GoString Contact
  pub nameservers : Assoc GoString NameServer
  pub ip_networks : Assoc GoString IpNetwork
  pub autnums : List (ℤ × Autnum)
  pub domain_by_ns : Assoc GoString (List GoString)
  pub domain_by_entity : Assoc GoString (List GoString)
  pub cache_ttl : ℤ
  pub seeded : Bool

abbrev pub found_or : {A : Type 0} → GoString → Option A → Result Error A
found_or message none = err (failure message)
found_or message (some a) = ok a

-- strings.ToLower(strings.TrimSuffix(name, "."))
unfoldable pub store_key : Unicode → GoString → GoString
store_key u name = to_lower u (trim_suffix b'.' name)

module _ (u : Unicode) (s : MemoryStore) where
  unfoldable pub lookup_domain : GoString → Result Error Domain
  lookup_domain name =
      let key = store_key u name in
      found_or (str "domain not found: " ++ key) (lookup key s.domains)

  -- if c, ok := s.contacts[h]; ok { agg.Contacts[h] = c }
  abbrev pub put_if_found :
      {V : Type 0} → Assoc GoString V → GoString → Assoc GoString V → Assoc GoString V
  put_if_found source k target = elim (lookup k source) [ none ↦ target | some v ↦ put k v target ]

  unfoldable pub add_contacts : List GoString → Assoc GoString Contact → Assoc GoString Contact
  add_contacts [] target = target
  add_contacts (h ∷ hs) target = add_contacts hs (put_if_found s.contacts h target)

  -- The two loops over d.Contacts.
  unfoldable pub add_role_contacts :
      Assoc GoString (List GoString) → Assoc GoString Contact → Assoc GoString Contact
  unfolding add_contacts
  add_role_contacts [] target = target
  add_role_contacts ((role, handles) ∷ more) target =
      add_role_contacts more (add_contacts handles target)

  unfoldable pub add_nameservers :
      List NameServer → Assoc GoString NameServer → Assoc GoString NameServer
  add_nameservers [] target = target
  add_nameservers (ns ∷ more) target =
      add_nameservers more (put_if_found s.nameservers ns.handle target)

  unfoldable pub resolve : Domain → DomainAggregate
  unfolding add_role_contacts add_nameservers
  resolve d = record {
    domain = d;
    registrar = lookup d.registrar s.contacts;
    contacts = add_role_contacts d.contacts (put_if_found s.contacts d.registrar []);
    nameservers = add_nameservers d.nameservers [];
  }

  unfoldable pub get_domain_aggregate : GoString → Result Error DomainAggregate
  unfolding resolve
  get_domain_aggregate name =
      let key = store_key u name in
      elim (lookup key s.domains) [
        | none ↦ err (failure (str "domain not found: " ++ key))
        | some d ↦ ok (resolve d)
      ]

  unfoldable pub lookup_contact : GoString → Result Error Contact
  lookup_contact handle = found_or (str "entity not found: " ++ handle) (lookup handle s.contacts)

  abbrev pub is_named : GoString → NameServer → Bool
  is_named name n = equal_fold u n.ldh_name name || equal_fold u n.unicode_name name

  -- The loop over s.nameservers.
  unfoldable pub find_nameserver : GoString → Assoc GoString NameServer → Option NameServer
  find_nameserver name [] = none
  find_nameserver name ((k, n) ∷ more) =
      if is_named name n then some n else find_nameserver name more

  unfoldable pub lookup_nameserver : GoString → Result Error NameServer
  unfolding find_nameserver
  lookup_nameserver name =
      let key = store_key u name in
      found_or (str "nameserver not found: " ++ key) (find_nameserver key s.nameservers)

  unfoldable pub lookup_ip_network : GoString → Result Error IpNetwork
  lookup_ip_network cidr =
      found_or (str "IP network not found: " ++ cidr) (lookup cidr s.ip_networks)

  unfoldable pub find_autnum : ℤ → List (ℤ × Autnum) → Option Autnum
  find_autnum asn [] = none
  find_autnum asn ((n, a) ∷ more) = if int_eq n asn then some a else find_autnum asn more

  unfoldable pub lookup_autnum : ℤ → Result Error Autnum
  unfolding find_autnum
  lookup_autnum asn =
      found_or (str "autnum not found: " ++ show_int asn) (find_autnum asn s.autnums)
