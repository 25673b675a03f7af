-- ===== src/Store/Memory/Seed/Closed.antt =====
-- The references between the seeded objects.
use go_rdap_server.Base.{
  ◌≡◌, refl, true, Option, none, some, is_some, List, [], ◌∷◌, All, GoString, str_eq, ℤ,
}
use go_rdap_server.Domain.{Time, Assoc, lookup, put, Domain}
use go_rdap_server.Store.Memory.{MemoryStore}
use go_rdap_server.Store.Memory.Seed.{new_memory_store, seed}
use go_rdap_server.Store.Memory.Seed.Objects.{seed_domain, seed_nameserver}

-- Every handle that a domain refers to is a key of the store, and every name in the index by
-- nameserver is one of a domain.
abbrev pub IsFound : {V : Type 0} → Assoc GoString V → GoString → Type 0
IsFound m k = is_some (lookup k m) ≡ true

abbrev pub AreFound : {V : Type 0} → Assoc GoString V → Assoc GoString (List GoString) → Type 0
AreFound m [] = Unit
AreFound m ((k, keys) ∷ more) = All (IsFound m) keys × AreFound m more

abbrev pub IsClosedDomain : MemoryStore → Domain → Type 0
IsClosedDomain s d =
    IsFound s.contacts d.registrar
    × AreFound s.contacts d.contacts
    × All (λ n. IsFound s.nameservers n.handle) d.nameservers

abbrev pub AreClosed : MemoryStore → Assoc GoString Domain → Type 0
AreClosed s [] = Unit
AreClosed s ((name, d) ∷ more) = IsClosedDomain s d × AreClosed s more

abbrev pub IsClosed : MemoryStore → Type 0
IsClosed s =
    AreClosed s s.domains
    × AreFound s.domains s.domain_by_ns
    × AreFound s.domains s.domain_by_entity

-- Whatever the time and the configured cache time, a new memory store is closed: each registrar,
-- contact and nameserver that its domains refer to is in it, and its indexes name domains of it.
pub new_memory_store-IsClosed : (now : Time) (ttl : Option ℤ) → IsClosed (new_memory_store now ttl)
unfolding new_memory_store seed seed_domain seed_nameserver lookup put str_eq
new_memory_store-IsClosed now none = (
  ((refl, ((refl, tt), ((refl, tt), ((refl, tt), tt))), (refl, (refl, tt))), tt),
  (((refl, tt), ((refl, tt), tt))),
  ((refl, tt), tt),
)
new_memory_store-IsClosed now (some t) = (
  ((refl, ((refl, tt), ((refl, tt), ((refl, tt), tt))), (refl, (refl, tt))), tt),
  (((refl, tt), ((refl, tt), tt))),
  ((refl, tt), tt),
)
