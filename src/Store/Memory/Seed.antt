-- ===== src/Store/Memory/Seed.antt =====
-- internal/store/memory.go: NewMemoryStore and the sample data that it puts into the empty maps.
pub mod Objects
pub mod Closed
use go_rdap_server.Base.{
  Option, none, some, List, [], ◌∷◌, ◌++◌, true, false, if◌then◌else◌, GoString, str, ℤ, pos,
}
use go_rdap_server.Domain.{Time, Assoc, lookup, put}
use go_rdap_server.Store.Memory.{MemoryStore}
use go_rdap_server.Store.Memory.Seed.Objects.{
  seed_registrar, seed_technical, seed_registrant, seed_nameserver, ns1, ns2, seed_domain,
  seed_ip_network, seed_autnum,
}

-- m[key] = append(m[key], v)
abbrev append_at :
    GoString → GoString → Assoc GoString (List GoString) → Assoc GoString (List GoString)
append_at key v m = put key (elim (lookup key m) [ none ↦ v ∷ [] | some vs ↦ vs ++ v ∷ [] ]) m

-- The write to s.autnums: the first entry of a number is the one that is found.
unfoldable pub seed : Time → MemoryStore → MemoryStore
unfolding seed_registrar seed_technical seed_registrant seed_nameserver seed_domain seed_ip_network
    seed_autnum
seed now s = if s.seeded then s else record {
  domains = put (str "example.com") (seed_domain now) s.domains;
  contacts =
      put (str "REG1-NAME") (seed_registrant now)
        (put (str "888") (seed_technical now) (put (str "2") (seed_registrar now) s.contacts));
  nameservers = put (str "NS2-NAME") (ns2 now) (put (str "NS1-NAME") (ns1 now) s.nameservers);
  ip_networks = put (str "8.8.8.0/24") (seed_ip_network now) s.ip_networks;
  autnums = (pos 15169, seed_autnum now) ∷ s.autnums;
  domain_by_ns =
      append_at (str "ns2.example.com") (str "example.com")
        (append_at (str "ns1.example.com") (str "example.com") s.domain_by_ns);
  domain_by_entity = append_at (str "REG1-NAME") (str "example.com") s.domain_by_entity;
  cache_ttl = s.cache_ttl;
  seeded = true;
}

abbrev empty_store : ℤ → MemoryStore
empty_store ttl = record {
  domains = [];
  contacts = [];
  nameservers = [];
  ip_networks = [];
  autnums = [];
  domain_by_ns = [];
  domain_by_entity = [];
  cache_ttl = ttl;
  seeded = false;
}

-- NewMemoryStore: `parsed` is time.ParseDuration of the configured text, `none` if that is empty or
-- refused.
unfoldable pub new_memory_store : Time → Option ℤ → MemoryStore
unfolding seed
new_memory_store now none = seed now (empty_store (pos 300_000_000_000))
new_memory_store now (some ttl) = seed now (empty_store ttl)
