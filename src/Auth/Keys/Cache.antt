-- ===== src/Auth/Keys/Cache.antt =====
-- How the cache of keys changes.
use go_rdap_server.Base.{
  ℕ, ◌≡◌, refl, ◌⊎◌, inl, inr, Option, none, some, List, arith, GoString, Result, ok, Option-cases,
  Result-cases,
}
use go_rdap_server.Domain.{Assoc, lookup}
use go_rdap_server.Auth.Keys.{Key, Jwk, keyfunc, refresh_keys}

module _ (decode : GoString → Option (List ℕ)) where
  -- The set that keyfunc leaves is the old one, or it is the set that the refresh gave and the old
  -- one had no key of this id; so a failed refresh keeps the old set.
  pub keyfunc_changes :
      (fetch : Result GoString (List Jwk)) (kid : GoString) (keys : Assoc GoString Key)
      → ((keyfunc decode fetch kid keys).1 ≡ keys)
        ⊎ ((lookup kid keys ≡ none)
            × (refresh_keys decode fetch ≡ ok (keyfunc decode fetch kid keys).1))
  unfolding keyfunc
  keyfunc_changes fetch kid keys = ground arith

  -- A key that keyfunc returns is the one that its key set holds afterwards under the id.
  pub keyfunc_cached :
      (fetch : Result GoString (List Jwk)) (kid : GoString) (keys : Assoc GoString Key) (key : Key)
      → (keyfunc decode fetch kid keys).0 ≡ ok key
      → lookup kid (keyfunc decode fetch kid keys).1 ≡ some key
  unfolding keyfunc
  keyfunc_cached fetch kid keys key h = ground arith

  -- A key of this id that the set has, or else one that a set fetched and accepted has.
  abbrev pub IsKnown : Result GoString (List Jwk) → GoString → Assoc GoString Key → Key → Type 0
  IsKnown fetch kid keys key =
      (lookup kid keys ≡ some key)
      ⊎ ((lookup kid keys ≡ none)
          × (fresh : Assoc GoString Key) × (refresh_keys decode fetch ≡ ok fresh)
          × (lookup kid fresh ≡ some key))

  -- The key that keyfunc returns is the one of the id in the old set or, only if that has none, in
  -- the set of a refresh.
  pub keyfunc-IsKnown :
      (fetch : Result GoString (List Jwk)) (kid : GoString) (keys : Assoc GoString Key) (key : Key)
      → (keyfunc decode fetch kid keys).0 ≡ ok key
      → IsKnown fetch kid keys key
  unfolding keyfunc
  keyfunc-IsKnown fetch kid keys key h = elim (Option-cases (lookup kid keys)) [
    | inr (k, found) ↦ inl (ground arith)
    | inl missing ↦ elim (Result-cases (refresh_keys decode fetch)) [
      | inl (e, bad) ↦ cc (rw (missing, keyfunc, bad) at h)
      | inr (fresh, good) ↦ inr (missing, fresh, good, ground arith)
    ]
  ]

  pub IsKnown-keyfunc :
      (fetch : Result GoString (List Jwk)) (kid : GoString) (keys : Assoc GoString Key) (key : Key)
      → IsKnown fetch kid keys key
      → (keyfunc decode fetch kid keys).0 ≡ ok key
  unfolding keyfunc
  IsKnown-keyfunc fetch kid keys key (inl found) = rw (found, keyfunc) refl
  IsKnown-keyfunc fetch kid keys key (inr (missing, fresh, good, found)) =
      ground (arith, missing, good, found)
