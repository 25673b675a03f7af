-- ===== src/Auth/Keys/Concurrent.antt =====
-- internal/auth/auth.go: calls of keyfunc that run at the same time. The key set is read and
-- written under a lock, so each access is one turn; between two turns of a call other calls may
-- take theirs.
pub mod Published
use mathlib.Core.Path.{subst}
use go_rdap_server.Base.{
  ◌≡◌, refl, sym, ◌⊎◌, inl, inr, ℕ, Bool, Option, none, some, List, [], ◌∷◌, ◌++◌, In, arith,
  if◌then◌else◌, ◌==◌, Result, ok, err, GoString, str, Bool-cases, Option-cases, Result-cases,
}
use go_rdap_server.Domain.{Assoc, lookup}
use go_rdap_server.Auth.Keys.{Key, Jwk, refresh_keys}
use go_rdap_server.Auth.Keys.Origin.{IsPublished, refresh_keys-IsPublished}

-- A call: begun, behind a miss, with a key set to store, behind the store, or returned.
pub data Call : Type 0 where
  begun missed : GoString → Call
  fetched : GoString → Assoc GoString Key → Call
  stored : GoString → Call
  returned : GoString → Result GoString Key → Call

-- The first read of the key set.
unfoldable pub first_look : Assoc GoString Key → GoString → Call
first_look keys kid = elim (lookup kid keys) [
  | some key ↦ returned kid (ok key)
  | none ↦ missed kid
]

-- The read after the refresh.
unfoldable pub second_look : Assoc GoString Key → GoString → Call
second_look keys kid = elim (lookup kid keys) [
  | some key ↦ returned kid (ok key)
  | none ↦ returned kid (err (str "no public key for kid " ++ kid))
]

abbrev pub refreshed : GoString → Result GoString (Assoc GoString Key) → Call
refreshed kid (err e) = returned kid (err (str "refresh jwks: " ++ e))
refreshed kid (ok keys) = fetched kid keys

-- The shared key set, the calls, and the documents that the endpoint has served so far.
pub record Cache : Type 0 where
  pub keys : Assoc GoString Key
  pub calls : ℕ → Call
  pub served : List (List Jwk)

abbrev pub with_call : ℕ → Call → (ℕ → Call) → ℕ → Call
with_call i call calls j = if i == j then call else calls j

module _ (decode : GoString → Option (List ℕ)) where
  -- refreshKeys up to its lock.
  unfoldable pub fetch : GoString → List Jwk → Call
  fetch kid doc = refreshed kid (refresh_keys decode (ok doc))

  infix 40 ◌⟶◌
  pub data ◌⟶◌ : Cache → Cache → Type 0 where
    begins :
        (c : Cache) (i : ℕ) (kid : GoString)
        → c ⟶ record c { calls = with_call i (begun kid) c.calls }
    looks :
        (c : Cache) (i : ℕ) (kid : GoString)
        → c.calls i ≡ begun kid
        → c ⟶ record c { calls = with_call i (first_look c.keys kid) c.calls }
    fetches :
        (c : Cache) (i : ℕ) (kid : GoString) (doc : List Jwk)
        → c.calls i ≡ missed kid
        → c ⟶ record c { calls = with_call i (fetch kid doc) c.calls; served = doc ∷ c.served }
    misses :
        (c : Cache) (i : ℕ) (kid e : GoString)
        → c.calls i ≡ missed kid
        → c ⟶ record c { calls = with_call i (refreshed kid (refresh_keys decode (err e))) c.calls }
    stores :
        (c : Cache) (i : ℕ) (kid : GoString) (keys : Assoc GoString Key)
        → c.calls i ≡ fetched kid keys
        → c ⟶ record c { keys = keys; calls = with_call i (stored kid) c.calls }
    retries :
        (c : Cache) (i : ℕ) (kid : GoString)
        → c.calls i ≡ stored kid
        → c ⟶ record c { calls = with_call i (second_look c.keys kid) c.calls }

  pub data Reach : Cache → Cache → Type 0 where
    start : (c : Cache) → Reach c c
    later : (c d e : Cache) → Reach c d → d ⟶ e → Reach c e
