-- ===== src/Auth/Keys.antt =====
-- internal/auth/auth.go: JSON Web Keys and the cache of keys. The state of the authenticator is its
-- key set. `decode` is base64.RawURLEncoding.DecodeString, and `fetch` is the answer of the JWKS
-- endpoint, decoded, or the error of asking it. The errors stand without the quotes of `%q`.
pub mod Cache
pub mod Origin
pub mod Concurrent
use go_rdap_server.Base.{
  ℕ, ◌+◌, ◌*◌, ◌^◌, Bool, true, false, not, ◌&&◌, ◌||◌, Option, none, some, List, [], ◌∷◌, ◌++◌,
  if◌then◌else◌, is_empty, Result, ok, err, GoString, str, str_eq, ltb,
}
use go_rdap_server.Domain.{Assoc, lookup, put}

pub data Curve : Type 0 where
  p256 p384 p521 : Curve

pub data Key : Type 0 where
  rsa : (n e : ℕ) → Key
  ecdsa : Curve → (x y : ℕ) → Key

-- The members of a JWK that are strings; `k[name].(string)` is "" for any other.
abbrev pub Jwk : Type 0
Jwk = Assoc GoString GoString

abbrev pub member : Jwk → GoString → GoString
member k name = elim (lookup name k) [ none ↦ [] | some s ↦ s ]

-- big.Int's SetBytes: the bytes are the digits to the base 256, the highest first.
unfoldable pub set_bytes : ℕ → List ℕ → ℕ
set_bytes acc [] = acc
set_bytes acc (b ∷ bs) = set_bytes (acc * 256 + b) bs

unfoldable pub curve_of : GoString → Option Curve
curve_of crv =
    if str_eq crv (str "P-256")
    then some p256
    else if str_eq crv (str "P-384")
    then some p384
    else if str_eq crv (str "P-521")
    then some p521
    else none

module _ (decode : GoString → Option (List ℕ)) where
  unfoldable pub base64_url_big_int : Jwk → GoString → Option ℕ
  unfolding set_bytes
  base64_url_big_int k name =
      if str_eq (member k name) []
      then none
      else elim (decode (member k name)) [ none ↦ none | some b ↦ some (set_bytes 0 b) ]

  abbrev rsa_key : Option ℕ → Option ℕ → Result GoString Key
  rsa_key (some n) (some e) =
      if ltb 0 n && ltb 0 e && ltb e (2 ^ 63) then ok (rsa n e) else err (str "invalid RSA JWK")
  rsa_key n e = err (str "invalid RSA JWK")

  abbrev ec_key : Curve → Option ℕ → Option ℕ → Result GoString Key
  ec_key c (some x) (some y) =
      if ltb 0 x && ltb 0 y then ok (ecdsa c x y) else err (str "invalid EC JWK")
  ec_key c x y = err (str "invalid EC JWK")

  unfoldable pub parse_jwk : Jwk → Result GoString Key
  unfolding base64_url_big_int curve_of
  parse_jwk k =
      if str_eq (member k (str "kty")) (str "RSA")
      then rsa_key (base64_url_big_int k (str "n")) (base64_url_big_int k (str "e"))
      else if str_eq (member k (str "kty")) (str "EC")
      then elim (curve_of (member k (str "crv"))) [
        | none ↦ err (str "unsupported EC curve " ++ member k (str "crv"))
        | some c ↦ ec_key c (base64_url_big_int k (str "x")) (base64_url_big_int k (str "y"))
      ]
      else err (str "unsupported JWK kty " ++ member k (str "kty"))

  abbrev pub with_key : GoString → Assoc GoString Key → Result GoString Key → Assoc GoString Key
  with_key kid keys (err e) = keys
  with_key kid keys (ok key) = put kid key keys

  -- The loop of refreshKeys: a key that does not parse is skipped.
  unfoldable pub collect_keys : List Jwk → Assoc GoString Key → Assoc GoString Key
  unfolding parse_jwk
  collect_keys [] keys = keys
  collect_keys (k ∷ ks) keys = collect_keys ks (with_key (member k (str "kid")) keys (parse_jwk k))

  abbrev pub checked_keys : Assoc GoString Key → Result GoString (Assoc GoString Key)
  checked_keys keys =
      if is_empty keys
      then err (str "jwks contained no supported public keys (rsa/ecdsa)")
      else ok keys

  -- The new key set, or the error; the caller's set stays on an error.
  unfoldable pub refresh_keys : Result GoString (List Jwk) → Result GoString (Assoc GoString Key)
  unfolding collect_keys
  refresh_keys (err e) = err e
  refresh_keys (ok []) = err (str "jwks contains no keys")
  refresh_keys (ok (k ∷ ks)) = checked_keys (collect_keys (k ∷ ks) [])

  abbrev after_refresh :
      GoString
      → Assoc GoString Key
      → Result GoString (Assoc GoString Key)
      → Result GoString Key × Assoc GoString Key
  after_refresh kid old (err e) = (err (str "refresh jwks: " ++ e), old)
  after_refresh kid old (ok keys) = elim (lookup kid keys) [
    | none ↦ (err (str "no public key for kid " ++ kid), keys)
    | some key ↦ (ok key, keys)
  ]

  -- The key, or the error, and the key set afterwards.
  unfoldable pub keyfunc :
      Result GoString (List Jwk)
      → GoString
      → Assoc GoString Key
      → Result GoString Key × Assoc GoString Key
  unfolding refresh_keys
  keyfunc fetch kid keys = elim (lookup kid keys) [
    | some key ↦ (ok key, keys)
    | none ↦ after_refresh kid keys (refresh_keys fetch)
  ]
