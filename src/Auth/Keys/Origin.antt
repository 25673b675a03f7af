-- ===== src/Auth/Keys/Origin.antt =====
-- Where the keys of a refreshed set come from.
use go_rdap_server.Base.{
  ℕ, ◌≡◌, ◌⊎◌, inl, inr, refl, Option, some, List, [], ◌∷◌, In, arith, GoString, str, str_eq,
  str_eq_iff, ok, Result-cases, Bool-cases, is_empty,
}
use go_rdap_server.Domain.{Assoc, lookup, lookup-put}
use go_rdap_server.Auth.Keys.{
  Key, Jwk, member, parse_jwk, with_key, collect_keys, checked_keys, refresh_keys,
}

module _ (decode : GoString → Option (List ℕ)) where
  -- A member of the document that has this id and parses as this key.
  abbrev pub IsPublished : List Jwk → GoString → Key → Type 0
  IsPublished ks kid key =
      (k : Jwk) × In k ks × (member k (str "kid") ≡ kid) × (parse_jwk decode k ≡ ok key)

  with_key_sound :
      (k : Jwk) (kid : GoString) (key : Key) (keys : Assoc GoString Key)
      → lookup kid (with_key decode (member k (str "kid")) keys (parse_jwk decode k)) ≡ some key
      → (lookup kid keys ≡ some key)
        ⊎ ((member k (str "kid") ≡ kid) × (parse_jwk decode k ≡ ok key))
  with_key_sound k kid key keys h = elim (Result-cases (parse_jwk decode k)) [
    | inl (e, bad) ↦ inl (rw (bad, with_key) at h)
    | inr (new, good) ↦ elim (Bool-cases (str_eq (member k (str "kid")) kid)) [
      | inl same ↦ inr (
        (str_eq_iff (member k (str "kid")) kid).0 same,
        ground (
          arith,
          lookup-put (member k (str "kid")) kid new keys,
          good,
          (rw (good, with_key) at h),
          same,
        ),
      )
      | inr other ↦ inl (
          ground (
            arith,
            lookup-put (member k (str "kid")) kid new keys,
            (rw (good, with_key) at h),
            other,
          ))
    ]
  ]

  collect_keys_sound :
      (ks : List Jwk) (kid : GoString) (key : Key) (keys : Assoc GoString Key)
      → lookup kid (collect_keys decode ks keys) ≡ some key
      → (lookup kid keys ≡ some key) ⊎ IsPublished ks kid key
  unfolding collect_keys
  collect_keys_sound [] kid key keys h = inl h
  collect_keys_sound (k ∷ ks) kid key keys h =
      elim (collect_keys_sound ks kid key
        (with_key decode (member k (str "kid")) keys (parse_jwk decode k)) h) [
          | inr (j, place, named, parsed) ↦ inr (j, inr place, named, parsed)
          | inl old ↦ elim (with_key_sound k kid key keys old) [
            | inl older ↦ inl older
            | inr (named, parsed) ↦ inr (k, inl refl, named, parsed)
          ]
        ]

  -- A key of a refreshed set is the parsed form of a member of the fetched document that carries its
  -- id.
  pub refresh_keys-IsPublished :
      (ks : List Jwk) (keys : Assoc GoString Key) (kid : GoString) (key : Key)
      → refresh_keys decode (ok ks) ≡ ok keys
      → lookup kid keys ≡ some key
      → IsPublished ks kid key
  unfolding refresh_keys lookup
  refresh_keys-IsPublished [] keys kid key h found = cc
  refresh_keys-IsPublished (k ∷ ks) keys kid key h found =
      elim (Bool-cases (is_empty (collect_keys decode (k ∷ ks) []))) [
        | inl e ↦ cc (rw (e, checked_keys) at h)
        | inr e ↦
            let same = rw (e, checked_keys) at h in
            elim (collect_keys_sound (k ∷ ks) kid key [] (cc (same, found))) [
              | inl none_yet ↦ cc none_yet
              | inr published ↦ published
            ]
      ]
