-- ===== src/Auth/Keys/Concurrent/Published.antt =====
-- internal/auth/auth.go: where the keys come from that calls of keyfunc return.
use mathlib.Core.Path.{subst}
use go_rdap_server.Base.{
  ◌≡◌, refl, inl, inr, ℕ, Option, some, List, [], ◌∷◌, In, ◌==◌, ok, err, GoString, Bool-cases,
  Option-cases, Result-cases,
}
use go_rdap_server.Domain.{Assoc, lookup}
use go_rdap_server.Auth.Keys.{Key, Jwk, refresh_keys}
use go_rdap_server.Auth.Keys.Origin.{IsPublished, refresh_keys-IsPublished}
use go_rdap_server.Auth.Keys.Concurrent.{
  Call, begun, missed, fetched, stored, returned, first_look, second_look, refreshed, Cache,
  with_call, fetch, ◌⟶◌, begins, looks, fetches, misses, stores, retries, Reach, start, later,
}

module _ (decode : GoString → Option (List ℕ)) where
  -- A key that a served document has under the id.
  abbrev pub IsServed : List (List Jwk) → GoString → Key → Type 0
  IsServed docs kid key = (doc : List Jwk) × In doc docs × IsPublished decode doc kid key

  abbrev pub AllServed : List (List Jwk) → Assoc GoString Key → Type 0
  AllServed docs keys =
      (kid : GoString) (key : Key) → lookup kid keys ≡ some key → IsServed docs kid key

  abbrev pub IsHonest : List (List Jwk) → Call → Type 0
  IsHonest docs (begun kid) = Unit
  IsHonest docs (missed kid) = Unit
  IsHonest docs (fetched kid keys) = AllServed docs keys
  IsHonest docs (stored kid) = Unit
  IsHonest docs (returned kid (err e)) = Unit
  IsHonest docs (returned kid (ok key)) = IsServed docs kid key

  pub record IsSound (c : Cache) : Type 0 where
    pub keys : AllServed c.served c.keys
    pub calls : (i : ℕ) → IsHonest c.served (c.calls i)

  more-IsServed :
      (doc : List Jwk) (docs : List (List Jwk)) (kid : GoString) (key : Key)
      → IsServed docs kid key
      → IsServed (doc ∷ docs) kid key
  more-IsServed doc docs kid key (d, place, published) = (d, inr place, published)

  more-IsHonest :
      (doc : List Jwk) (docs : List (List Jwk)) (call : Call)
      → IsHonest docs call
      → IsHonest (doc ∷ docs) call
  more-IsHonest doc docs (begun kid) h = tt
  more-IsHonest doc docs (missed kid) h = tt
  more-IsHonest doc docs (fetched kid keys) h = λ k key e. more-IsServed doc docs k key (h k key e)
  more-IsHonest doc docs (stored kid) h = tt
  more-IsHonest doc docs (returned kid (err e)) h = tt
  more-IsHonest doc docs (returned kid (ok key)) h = more-IsServed doc docs kid key h

  first_look-IsHonest :
      (docs : List (List Jwk)) (keys : Assoc GoString Key) (kid : GoString)
      → AllServed docs keys
      → IsHonest docs (first_look keys kid)
  unfolding first_look
  first_look-IsHonest docs keys kid all = elim (Option-cases (lookup kid keys)) [
    | inl absent ↦ rw (absent, first_look) tt
    | inr (key, found) ↦ rw (found, first_look) (all kid key found)
  ]

  second_look-IsHonest :
      (docs : List (List Jwk)) (keys : Assoc GoString Key) (kid : GoString)
      → AllServed docs keys
      → IsHonest docs (second_look keys kid)
  unfolding second_look
  second_look-IsHonest docs keys kid all = elim (Option-cases (lookup kid keys)) [
    | inl absent ↦ rw (absent, second_look) tt
    | inr (key, found) ↦ rw (found, second_look) (all kid key found)
  ]

  fetch-IsHonest :
      (docs : List (List Jwk)) (kid : GoString) (doc : List Jwk)
      → IsHonest (doc ∷ docs) (fetch decode kid doc)
  unfolding fetch
  fetch-IsHonest docs kid doc = elim (Result-cases (refresh_keys decode (ok doc))) [
    | inl (e, bad) ↦ rw (bad, fetch) tt
    | inr (keys, good) ↦
        rw (good, fetch)
          (λ k key found.
            (doc, inl refl, refresh_keys-IsPublished decode doc keys k key good found))
  ]

  with_call-IsHonest :
      (docs : List (List Jwk)) (i : ℕ) (call : Call) (calls : ℕ → Call)
      → IsHonest docs call
      → ((j : ℕ) → IsHonest docs (calls j))
      → (j : ℕ) → IsHonest docs (with_call i call calls j)
  with_call-IsHonest docs i call calls one all j = elim (Bool-cases (i == j)) [
    | inl here ↦ rw here one
    | inr there ↦ rw there (all j)
  ]

  misses-IsHonest :
      (docs : List (List Jwk)) (kid e : GoString)
      → IsHonest docs (refreshed kid (refresh_keys decode (err e)))
  unfolding refresh_keys
  misses-IsHonest docs kid e = tt

  fetched-AllServed :
      (docs : List (List Jwk)) (kid : GoString) (keys : Assoc GoString Key) (call : Call)
      → call ≡ fetched kid keys
      → IsHonest docs call
      → AllServed docs keys
  fetched-AllServed docs kid keys call e h = subst (IsHonest docs) e h

  turn-IsSound : {c d : Cache} → ◌⟶◌ decode c d → IsSound c → IsSound d
  turn-IsSound (begins c i kid) s = record {
    keys = s.keys;
    calls = with_call-IsHonest c.served i (begun kid) c.calls tt s.calls;
  }
  turn-IsSound (looks c i kid e) s = record {
    keys = s.keys;
    calls =
        with_call-IsHonest c.served i (first_look c.keys kid) c.calls
          (first_look-IsHonest c.served c.keys kid s.keys) s.calls;
  }
  turn-IsSound (fetches c i kid doc e) s = record {
    keys = λ k key found. more-IsServed doc c.served k key (s.keys k key found);
    calls =
        with_call-IsHonest (doc ∷ c.served) i (fetch decode kid doc) c.calls
          (fetch-IsHonest c.served kid doc)
          (λ j. more-IsHonest doc c.served (c.calls j) (s.calls j));
  }
  turn-IsSound (misses c i kid x e) s = record {
    keys = s.keys;
    calls =
        with_call-IsHonest c.served i (refreshed kid (refresh_keys decode (err x))) c.calls
          (misses-IsHonest c.served kid x) s.calls;
  }
  turn-IsSound (stores c i kid keys e) s = record {
    keys = fetched-AllServed c.served kid keys (c.calls i) e (s.calls i);
    calls = with_call-IsHonest c.served i (stored kid) c.calls tt s.calls;
  }
  turn-IsSound (retries c i kid e) s = record {
    keys = s.keys;
    calls =
        with_call-IsHonest c.served i (second_look c.keys kid) c.calls
          (second_look-IsHonest c.served c.keys kid s.keys) s.calls;
  }

  kept-IsSound : {c d : Cache} → Reach decode c d → IsSound c → IsSound d
  kept-IsSound (start c) s = s
  kept-IsSound (later c d e run turn) s = turn-IsSound turn (kept-IsSound run s)

  -- A new authenticator: no keys, no documents, and calls that are at their begin.
  abbrev pub new_cache : (ℕ → GoString) → Cache
  new_cache kids = record { keys = []; calls = λ i. begun (kids i); served = [] }

  new_cache-IsSound : (kids : ℕ → GoString) → IsSound (new_cache kids)
  unfolding lookup
  new_cache-IsSound kids = record { keys = λ kid key found. cc found; calls = λ i. tt }

  -- However the turns of calls of keyfunc interleave, a key that one of them returns is the parsed
  -- form of a member, with the id that was asked for, of a document that the endpoint has served.
  pub returned-IsServed :
      (kids : ℕ → GoString) (c : Cache) (i : ℕ) (kid : GoString) (key : Key)
      → Reach decode (new_cache kids) c
      → c.calls i ≡ returned kid (ok key)
      → IsServed c.served kid key
  returned-IsServed kids c i kid key run e =
      let s = kept-IsSound run (new_cache-IsSound kids) in subst (IsHonest c.served) e (s.calls i)
