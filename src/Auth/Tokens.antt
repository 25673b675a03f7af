-- ===== src/Auth/Tokens.antt =====
-- internal/auth/auth.go: ValidateToken. The JWT library is a parameter: `header` parses the token,
-- refuses an algorithm that is not listed and gives the header's kid, and `verify` checks the
-- signature by the key and the time claims, as ParseWithClaims does before and after keyfunc. The
-- errors stand for those of the source without the values that they show; no caller reads them.
pub mod Laws
use go_rdap_server.Base.{
  ℕ, Bool, true, false, not, ◌&&◌, ◌||◌, Option, none, some, List, [], ◌∷◌, ◌++◌, if◌then◌else◌,
  is_empty, Result, ok, err, GoString, str, str_eq, trim_suffix, ℤ,
}
use go_rdap_server.Domain.{Assoc}
use go_rdap_server.Config.{AuthConfig, is_listed}
use go_rdap_server.Auth.Keys.{Key, Jwk, keyfunc}

pub record Claims : Type 0 where
  pub subject : GoString
  pub issuer : GoString
  pub audience : List GoString
  pub expiry : ℤ
  pub issued_at : ℤ
  pub scope : GoString
  pub allowed_purposes : List GoString
  pub do_not_track_allowed : Bool

-- jwtClaims; the time claims are pointers, nil when the token lacks them.
pub record JwtClaims : Type 0 where
  pub subject : GoString
  pub issuer : GoString
  pub audience : List GoString
  pub scope : GoString
  pub allowed_purposes : List GoString
  pub do_not_track_allowed : Bool
  pub expires_at : Option ℤ
  pub issued_at : Option ℤ

pub record Jwt : Type 0 where
  pub header : List GoString → GoString → Result GoString GoString
  pub verify : GoString → Key → Result GoString JwtClaims
  pub decode : GoString → Option (List ℕ)

-- The call returns claims or an error, or dereferences a nil pointer.
pub data Outcome : Type 0 where
  accepted : Claims → Outcome
  rejected : GoString → Outcome
  panic : Outcome

abbrev pub all_algorithms : List GoString
all_algorithms =
    str "RS256"
    ∷ str "RS384"
    ∷ str "RS512"
    ∷ str "ES256"
    ∷ str "ES384"
    ∷ str "ES512"
    ∷ str "PS256"
    ∷ str "PS384"
    ∷ str "PS512"
    ∷ []

-- The two loops; no algorithm stands twice in the inner one's list.
unfoldable pub listed_algorithms : List GoString → List GoString
listed_algorithms [] = []
listed_algorithms (a ∷ as') =
    let rest = listed_algorithms as' in if is_listed a all_algorithms then a ∷ rest else rest

unfoldable pub supported_algorithms : List GoString → List GoString
unfolding listed_algorithms
supported_algorithms configured =
    if is_empty configured
    then all_algorithms
    else if is_empty (listed_algorithms configured)
    then all_algorithms
    else listed_algorithms configured

unfoldable pub audience_contains : List GoString → GoString → Bool
audience_contains [] want = false
audience_contains (a ∷ more) want = str_eq a want || audience_contains more want

unfoldable pub jwks_url : AuthConfig → GoString
jwks_url cfg =
    let url = trim_suffix b'/' cfg.jwks_endpoint in
    if str_eq url [] then trim_suffix b'/' cfg.issuer ++ str "/.well-known/jwks.json" else url

-- &Claims{…}: `.Unix()` of a nil pointer panics.
unfoldable pub to_claims : JwtClaims → Outcome
to_claims c = elim c.expires_at [
  | none ↦ panic
  | some expiry ↦ elim c.issued_at [
    | none ↦ panic
    | some issued ↦ accepted (record {
      subject = c.subject;
      issuer = c.issuer;
      audience = c.audience;
      expiry = expiry;
      issued_at = issued;
      scope = c.scope;
      allowed_purposes = c.allowed_purposes;
      do_not_track_allowed = c.do_not_track_allowed;
    })
  ]
]

-- The checks of the issuer and of the audience, each only if it is configured.
unfoldable pub check_claims : AuthConfig → JwtClaims → Outcome
unfolding to_claims audience_contains
check_claims cfg c =
    if not (str_eq cfg.issuer []) && not (str_eq c.issuer cfg.issuer)
    then rejected (str "invalid issuer")
    else if not (str_eq cfg.audience []) && not (audience_contains c.audience cfg.audience)
    then rejected (str "invalid audience")
    else to_claims c

module _ (jwt : Jwt) (cfg : AuthConfig) where
  abbrev judge : Result GoString JwtClaims → Outcome
  judge (err e) = rejected e
  judge (ok c) = check_claims cfg c

  abbrev verify_with : GoString → Result GoString Key → Outcome
  verify_with token (err e) = rejected e
  verify_with token (ok key) = judge (jwt.verify token key)

  -- The outcome, and the key set afterwards.
  unfoldable pub validate_token :
      Result GoString (List Jwk) → GoString → Assoc GoString Key → Outcome × Assoc GoString Key
  unfolding keyfunc check_claims supported_algorithms
  validate_token fetch token keys = elim (jwt.header (supported_algorithms cfg.algorithms) token) [
    | err e ↦ (rejected e, keys)
    | ok kid ↦
        let (found, keys') = keyfunc jwt.decode fetch kid keys in (verify_with token found, keys')
  ]
