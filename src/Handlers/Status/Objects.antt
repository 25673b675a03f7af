-- ===== src/Handlers/Status/Objects.antt =====
-- The status codes of the lookups of entities, nameservers and networks.
use go_rdap_server.Base.{
  ◌≡◌, ◌≢◌, ◌↔◌, refl, some, [], arith, ok, Result-cases, GoString, str_eq, str_eq_iff, Bool-cases,
  Option-cases, inl, inr, to_lower, contains_byte, true, false, ◌⊎◌, ◌++◌, str,
}
use go_rdap_server.Domain.{Contact, NameServer, IpNetwork}
use go_rdap_server.Service.Queries
use go_rdap_server.Handlers.{Handler, Request, Platform, write_json, write_error}
use go_rdap_server.Handlers.Lookups.{
  lookup_entity, lookup_nameserver, lookup_ip_network, network_key,
}

-- The prefix that a parameter stands for: itself, if it parses as a prefix; otherwise, if it parses
-- as an address, the prefix of that address alone, of 128 bits if it has a colon and of 32 if not.
abbrev pub StandsFor : Platform → GoString → GoString → Type 0
StandsFor p param key =
    ((p.is_prefix param ≡ true) × (key ≡ param))
    ⊎ ((p.is_prefix param ≡ false)
        × (p.is_addr param ≡ true)
        × (((contains_byte b':' param ≡ true) × (key ≡ param ++ str "/128"))
            ⊎ ((contains_byte b':' param ≡ false) × (key ≡ param ++ str "/32"))))

network_key_iff :
    (p : Platform) (h : Handler) (param key : GoString)
    → (network_key p h param ≡ some key) ↔ StandsFor p param key
unfolding network_key
network_key_iff p h param key = elim (Bool-cases (p.is_prefix param)) [
  | inl prefix ↦ rw prefix (λ e. inl (refl, cc e), λ s. ground arith)
  | inr plain ↦ elim (Bool-cases (p.is_addr param)) [
    | inl addr ↦ elim (Bool-cases (contains_byte b':' param)) [
      | inl six ↦
          rw (plain, network_key, addr, six)
            (λ e. inr (refl, refl, inl (refl, cc e)), λ s. ground arith)
      | inr four ↦
          rw (plain, network_key, addr, four)
            (λ e. inr (refl, refl, inr (refl, cc e)), λ s. ground arith)
    ]
    | inr other ↦ rw (plain, network_key, other) (λ e. cc e, λ s. ground arith)
  ]
]

module _ (p : Platform) (h : Handler) (r : Request) where
  entity_status_iff :
      ((lookup_entity p h r).status ≡ 200)
      ↔ ((r.param ≢ []) × (x : Contact) × (h.svc.store.lookup_contact r.param ≡ ok x))
  unfolding lookup_entity Queries.lookup_entity write_json write_error
  entity_status_iff = (
    λ q. elim (Bool-cases (str_eq r.param [])) [
      | inl e ↦ absurd (omega (arith, (rw (e, lookup_entity) at q)))
      | inr e ↦ elim (Result-cases (h.svc.store.lookup_contact r.param)) [
        | inl (x, missing) ↦
            absurd (omega (arith, (rw (e, lookup_entity, Queries.lookup_entity, missing) at q)))
        | inr (x, found) ↦ (ground (arith, str_eq_iff r.param []), x, found)
      ]
    ],
    λ (given, x, found). elim (Bool-cases (str_eq r.param [])) [
      | inl e ↦ absurd (given ((str_eq_iff r.param []).0 e))
      | inr e ↦ rw (e, lookup_entity, Queries.lookup_entity, found) refl
    ],
  )

  nameserver_status_iff : ((lookup_nameserver p h r).status ≡ 200) ↔ (
      (r.param ≢ [])
      × (x : NameServer) × (h.svc.store.lookup_nameserver (to_lower p.library.unicode r.param)
          ≡ ok x))
  unfolding lookup_nameserver Queries.lookup_nameserver write_json write_error
  nameserver_status_iff = (
    λ q. elim (Bool-cases (str_eq r.param [])) [
      | inl e ↦ absurd (omega (arith, (rw (e, lookup_nameserver) at q)))
      | inr e ↦
          elim (Result-cases (h.svc.store.lookup_nameserver (to_lower p.library.unicode r.param))) [
            | inl (x, missing) ↦ absurd (
                omega (arith, (rw (e, lookup_nameserver, Queries.lookup_nameserver, missing) at q)))
            | inr (x, found) ↦ (ground (arith, str_eq_iff r.param []), x, found)
          ]
    ],
    λ (given, x, found). elim (Bool-cases (str_eq r.param [])) [
      | inl e ↦ absurd (given ((str_eq_iff r.param []).0 e))
      | inr e ↦ rw (e, lookup_nameserver, Queries.lookup_nameserver, found) refl
    ],
  )

  ip_network_status_iff : ((lookup_ip_network p h r).status ≡ 200) ↔ (
      (r.param ≢ [])
      × (key : GoString) × (network_key p h r.param ≡ some key)
      × (x : IpNetwork) × (h.svc.store.lookup_ip_network key ≡ ok x))
  unfolding lookup_ip_network Queries.lookup_ip_network write_json write_error
  ip_network_status_iff = (
    λ q. elim (Bool-cases (str_eq r.param [])) [
      | inl e ↦ absurd (omega (arith, (rw (e, lookup_ip_network) at q)))
      | inr e ↦ elim (Option-cases (network_key p h r.param)) [
        | inl bad ↦ absurd (omega (arith, (rw (e, lookup_ip_network, bad) at q)))
        | inr (key, good) ↦ elim (Result-cases (h.svc.store.lookup_ip_network key)) [
          | inl (x, missing) ↦ absurd (
              omega
                (arith, (rw (e, lookup_ip_network, good, Queries.lookup_ip_network, missing) at q)))
          | inr (x, found) ↦ (ground (arith, str_eq_iff r.param []), key, good, x, found)
        ]
      ]
    ],
    λ (given, key, good, x, found). elim (Bool-cases (str_eq r.param [])) [
      | inl e ↦ absurd (given ((str_eq_iff r.param []).0 e))
      | inr e ↦ rw (e, lookup_ip_network, good, Queries.lookup_ip_network, found) refl
    ],
  )

  -- The lookups of an entity, a nameserver and a network answer 200 exactly if the path has a
  -- parameter and the storage backend finds the handle as it stands, the name in lower case, or the
  -- prefix that the parameter stands for: itself if it parses as one, or, if it parses as an
  -- address, the address with its full length, 128 if it has a colon and 32 if not.
  pub lookups-status_iff :
      (((lookup_entity p h r).status ≡ 200)
        ↔ ((r.param ≢ []) × (x : Contact) × (h.svc.store.lookup_contact r.param ≡ ok x)))
      × (((lookup_nameserver p h r).status ≡ 200) ↔ (
          (r.param ≢ [])
          × (x : NameServer) × (h.svc.store.lookup_nameserver (to_lower p.library.unicode r.param)
              ≡ ok x)))
      × (((lookup_ip_network p h r).status ≡ 200) ↔ (
          (r.param ≢ [])
          × (key : GoString) × StandsFor p r.param key
          × (x : IpNetwork) × (h.svc.store.lookup_ip_network key ≡ ok x)))
  lookups-status_iff = (
    entity_status_iff,
    nameserver_status_iff,
    (
      λ q.
          let (given, key, good, x, found) = ip_network_status_iff.0 q in
          (given, key, (network_key_iff p h r.param key).0 good, x, found),
      λ (given, key, stands, x, found).
          ip_network_status_iff.1
            (given, key, (network_key_iff p h r.param key).1 stands, x, found),
    ),
  )
