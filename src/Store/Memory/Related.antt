-- ===== src/Store/Memory/Related.antt =====
-- The reverse search and the lookup of a nameserver by name, as statements about the maps.
use mathlib.Core.Path.{subst}
use go_rdap_server.Base.{
  ◌≡◌, ◌≢◌, ◌↔◌, ◌⊎◌, refl, true, false, none, some, List, [], ◌∷◌, ◌++◌, In, arith, Bool-cases,
  inl, inr, ok, err, str, GoString, Unicode, str_eq, str_eq_iff, Option-cases,
}
use go_rdap_server.Domain.{Assoc, lookup, Domain, Contact, info, NameServer}
use go_rdap_server.Store.Interface.{failure}
use go_rdap_server.Store.Memory.{
  MemoryStore, store_key, find_nameserver, is_named, lookup_nameserver,
}
use go_rdap_server.Store.Memory.Search.{
  Matcher, has_address, add_handle, add_handles, add_role_handles, entity_handles, contact_matches,
  handle_matches, any_handle_matches, domain_matches_entity,
}

abbrev pub InRoles : GoString → Assoc GoString (List GoString) → Type 0
InRoles h [] = ⊥
InRoles h ((role, handles) ∷ more) = In h handles ⊎ InRoles h more

-- An entity is related to a domain as its registrar, if it has one, or as a contact of some role.
abbrev pub IsRelated : Domain → GoString → Type 0
IsRelated d h = ((d.registrar ≡ h) × (h ≢ [])) ⊎ InRoles h d.contacts

has_address_iff : (h : GoString) (hs : List GoString) → (has_address h hs ≡ true) ↔ In h hs
unfolding has_address
has_address_iff h [] = (λ e. cc, λ m. absurd m)
has_address_iff h (x ∷ xs) = (
  λ e. ground (arith, str_eq_iff x h, (has_address_iff h xs).0),
  λ e. ground (arith, str_eq_iff x h, (has_address_iff h xs).1),
)

In-snoc_iff : (a x : GoString) (xs : List GoString) → In a (xs ++ x ∷ []) ↔ (In a xs ⊎ (a ≡ x))
In-snoc_iff a x [] = (λ m. ground arith, λ m. ground arith)
In-snoc_iff a x (y ∷ ys) =
    (λ m. ground (arith, (In-snoc_iff a x ys).0), λ m. ground (arith, (In-snoc_iff a x ys).1))

add_handle_iff :
    (a h : GoString) (hs : List GoString) → In a (add_handle h hs) ↔ ((a ≡ h) ⊎ In a hs)
unfolding add_handle
add_handle_iff a h hs = elim (Bool-cases (has_address h hs)) [
  | inl old ↦ rw old (inr, λ m. elim m [ inl e ↦ rw e ((has_address_iff h hs).0 old) | inr m ↦ m ])
  | inr new ↦ rw new (
    λ m. ground (arith, (In-snoc_iff a h hs).0 m),
    λ m. (In-snoc_iff a h hs).1 (ground (arith, m)),
  )
]

add_handles_iff :
    (a : GoString) (more hs : List GoString) → In a (add_handles more hs) ↔ (In a more ⊎ In a hs)
unfolding add_handles
add_handles_iff a [] hs = (inr, λ m. ground arith)
add_handles_iff a (h ∷ more) hs = (
  λ m. ground (arith, (add_handles_iff a more (add_handle h hs)).0 m, (add_handle_iff a h hs).0),
  λ m. (add_handles_iff a more (add_handle h hs)).1 (ground (arith, m, (add_handle_iff a h hs).1)),
)

add_role_handles_iff :
    (a : GoString) (roles : Assoc GoString (List GoString)) (hs : List GoString)
    → In a (add_role_handles roles hs) ↔ (InRoles a roles ⊎ In a hs)
unfolding add_role_handles
add_role_handles_iff a [] hs = (inr, λ m. ground arith)
add_role_handles_iff a ((role, handles) ∷ more) hs = (
  λ m. ground (
    arith,
    (add_role_handles_iff a more (add_handles handles hs)).0 m,
    (add_handles_iff a handles hs).0,
  ),
  λ m.
      (add_role_handles_iff a more (add_handles handles hs)).1
        (ground (arith, m, (add_handles_iff a handles hs).1)),
)

entity_handles_iff : (a : GoString) (d : Domain) → In a (entity_handles d) ↔ IsRelated d a
unfolding entity_handles
entity_handles_iff a d = elim (Bool-cases (str_eq d.registrar [])) [
  | inl e ↦ rw e (
    λ m. ground (arith, (add_role_handles_iff a d.contacts []).0 m),
    λ m. (add_role_handles_iff a d.contacts []).1 (ground (arith, m, str_eq_iff d.registrar [])),
  )
  | inr e ↦ rw e (
    λ m. ground (
      arith,
      (add_role_handles_iff a d.contacts (d.registrar ∷ [])).0 m,
      str_eq_iff d.registrar [],
    ),
    λ m. (add_role_handles_iff a d.contacts (d.registrar ∷ [])).1 (ground (arith, m)),
  )
]

module _ (u : Unicode) (s : MemoryStore) where
  abbrev pub EntityMatches : GoString → Matcher → GoString → Type 0
  EntityMatches property re h =
      (c : Contact) × (lookup h s.contacts ≡ some c)
      × (contact_matches u s property re h (info c) ≡ true)

  handle_matches_sound :
      (property : GoString) (re : Matcher) (h : GoString)
      → handle_matches u s property re h ≡ true
      → EntityMatches property re h
  handle_matches_sound property re h hit = elim (Option-cases (lookup h s.contacts)) [
    | inl e ↦ cc (rw (e, handle_matches) at hit)
    | inr (c, e) ↦ (c, e, rw (e, handle_matches) at hit)
  ]

  any_handle_matches_iff :
      (property : GoString) (re : Matcher) (hs : List GoString)
      → (any_handle_matches u s property re hs ≡ true)
        ↔ ((h : GoString) × In h hs × EntityMatches property re h)
  unfolding any_handle_matches
  any_handle_matches_iff property re [] = (λ h. cc, λ m. absurd m.1)
  any_handle_matches_iff property re (x ∷ hs) = (
    λ h. elim (Bool-cases (handle_matches u s property re x)) [
      | inl hit ↦ (x, inl refl, handle_matches_sound property re x hit)
      | inr miss ↦
          let (y, m, fits) = (any_handle_matches_iff property re hs).0 (ground arith) in
          (y, inr m, fits)
    ],
    λ h.
        let (y, m, (c, found, fits)) = h in
        elim m [
          | inl e ↦ ground arith
          | inr later ↦
              ground (arith, (any_handle_matches_iff property re hs).1 (y, later, (c, found, fits)))
        ],
  )

  -- A domain is found by a reverse search exactly if some entity that is related to it is in the
  -- store and matches the property.
  pub domain_matches_entity_iff :
      (property : GoString) (re : Matcher) (d : Domain)
      → (domain_matches_entity u s property re d ≡ true)
        ↔ ((h : GoString) × IsRelated d h × EntityMatches property re h)
  unfolding domain_matches_entity
  domain_matches_entity_iff property re d = (
    λ e.
        let (h, m, fits) = (any_handle_matches_iff property re (entity_handles d)).0 e in
        (h, (entity_handles_iff h d).0 m, fits),
    λ e.
        let (h, m, fits) = e in
        (any_handle_matches_iff property re (entity_handles d)).1
          (h, (entity_handles_iff h d).1 m, fits),
  )

  abbrev pub InValues : NameServer → Assoc GoString NameServer → Type 0
  InValues n [] = ⊥
  InValues n ((k, m) ∷ more) = (n ≡ m) ⊎ InValues n more

  find_nameserver_sound :
      (key : GoString) (m : Assoc GoString NameServer) (n : NameServer)
      → find_nameserver u s key m ≡ some n
      → InValues n m × (is_named u s key n ≡ true)
  unfolding find_nameserver
  find_nameserver_sound key [] n h = cc
  find_nameserver_sound key ((k, x) ∷ m) n h = elim (Bool-cases (is_named u s key x)) [
    | inl e ↦ (inl (ground arith), ground arith)
    | inr e ↦ let (p, named) = find_nameserver_sound key m n (ground arith) in (inr p, named)
  ]

  find_nameserver_complete :
      (key : GoString) (m : Assoc GoString NameServer)
      → find_nameserver u s key m ≡ none
      → (n : NameServer) → InValues n m
      → is_named u s key n ≡ false
  unfolding find_nameserver
  find_nameserver_complete key [] h n p = absurd p
  find_nameserver_complete key ((k, x) ∷ m) h n (inl e) = ground arith
  find_nameserver_complete key ((k, x) ∷ m) h n (inr p) =
      find_nameserver_complete key m (ground arith) n p

  -- A nameserver of the store that has the name, in the one or the other form and case aside.
  abbrev pub IsFor : GoString → NameServer → Type 0
  IsFor name n = InValues n s.nameservers × (is_named u s (store_key u name) n ≡ true)

  -- Every nameserver that LookupNameserver returns is one of the store's that has the name, in the
  -- one or the other form and case aside, and it fails exactly if none of the store's has the name,
  -- with an error that says so.
  pub lookup_nameserver_lem :
      (name : GoString)
      → ((n : NameServer) → lookup_nameserver u s name ≡ ok n → IsFor name n)
        × ((lookup_nameserver u s name
              ≡ err (failure (str "nameserver not found: " ++ store_key u name)))
            ↔ ((n : NameServer) → ¬ IsFor name n))
        × (((n : NameServer) × IsFor name n)
            → (n : NameServer) × (lookup_nameserver u s name ≡ ok n))
  unfolding lookup_nameserver
  lookup_nameserver_lem name =
      let key = store_key u name in
      elim (Option-cases (find_nameserver u s key s.nameservers)) [
        | inl missing ↦
            let unnamed = find_nameserver_complete key s.nameservers missing in
            rw missing (
              λ n e. cc e,
              (λ e n (place, named). cc (unnamed n place, named), λ e. refl),
              λ (n, (place, named)). cc (unnamed n place, named),
            )
        | inr (m, found) ↦
            let sound = find_nameserver_sound key s.nameservers m found in
            rw found (
              λ n e. subst (IsFor name) (cc e) sound,
              (λ e. cc e, λ none_is. absurd (none_is m sound)),
              λ there. (m, refl),
            )
      ]
