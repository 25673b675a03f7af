-- ===== src/Auth/Tokens/Laws.antt =====
-- What an accepted token has been checked for.
use mathlib.Core.Path.{subst}
use go_rdap_server.Base.{
  ◌≡◌, ◌≢◌, ◌↔◌, sym, Option-cases, ◌⊎◌, inl, inr, refl, true, none, List, [], ◌∷◌, In, All,
  is_empty, arith, GoString, str_eq, str_eq_iff, Result, ok, Result-cases, Bool-cases,
}
use go_rdap_server.Config.{AuthConfig, is_listed}
use go_rdap_server.Domain.{Assoc}
use go_rdap_server.Auth.Keys.{Key, Jwk, keyfunc}
use go_rdap_server.Auth.Keys.Cache.{IsKnown, keyfunc-IsKnown, IsKnown-keyfunc}
use go_rdap_server.Auth.Tokens.{
  Claims, JwtClaims, Jwt, accepted, panic, all_algorithms, listed_algorithms, supported_algorithms,
  audience_contains, to_claims, check_claims, validate_token,
}

is_empty-nil : (xs : List GoString) → is_empty xs ≡ true → xs ≡ []
is_empty-nil [] h = refl
is_empty-nil (x ∷ xs) h = cc h

all_algorithms-All : All (λ a. is_listed a all_algorithms ≡ true) all_algorithms
unfolding is_listed str_eq
all_algorithms-All = (refl, (refl, (refl, (refl, (refl, (refl, (refl, (refl, (refl, tt)))))))))

listed-All :
    (xs : List GoString) → All (λ a. is_listed a all_algorithms ≡ true) (listed_algorithms xs)
unfolding listed_algorithms
listed-All [] = tt
listed-All (a ∷ more) = ground (arith, listed-All more)

-- Whatever the configuration lists, the algorithms handed to the parser are some of the nine that
-- the server verifies, and at least one.
pub supported_algorithms_safe :
    (configured : List GoString)
    → All (λ a. is_listed a all_algorithms ≡ true) (supported_algorithms configured)
      × (supported_algorithms configured ≢ [])
unfolding supported_algorithms
supported_algorithms_safe [] = (all_algorithms-All, cc)
supported_algorithms_safe (a ∷ more) = elim (Bool-cases (is_empty (listed_algorithms (a ∷ more)))) [
  | inl e ↦ rw e (all_algorithms-All, cc)
  | inr e ↦ rw e (listed-All (a ∷ more), λ q. cc)
]

pub is_listed_iff : (s : GoString) (xs : List GoString) → (is_listed s xs ≡ true) ↔ In s xs
unfolding is_listed
is_listed_iff s [] = (λ h. cc, λ m. absurd m)
is_listed_iff s (x ∷ xs) = (
  λ h. ground (arith, str_eq_iff x s, (is_listed_iff s xs).0),
  λ h. ground (arith, str_eq_iff x s, (is_listed_iff s xs).1),
)

listed_algorithms_sound :
    (a : GoString) (xs : List GoString)
    → In a (listed_algorithms xs)
    → In a xs × In a all_algorithms
unfolding listed_algorithms
listed_algorithms_sound a [] m = absurd m
listed_algorithms_sound a (x ∷ xs) m = elim (Bool-cases (is_listed x all_algorithms)) [
  | inl known ↦ elim (rw (known, listed_algorithms) at m) [
    | inl e ↦
        (inl e, subst (λ b. In b all_algorithms) (sym e) ((is_listed_iff x all_algorithms).0 known))
    | inr later ↦ let (place, listed) = listed_algorithms_sound a xs later in (inr place, listed)
  ]
  | inr unknown ↦
      let (place, listed) = listed_algorithms_sound a xs (rw (unknown, listed_algorithms) at m) in
      (inr place, listed)
]

-- An algorithm that the server verifies, and one of those configured where any of them is such.
abbrev pub IsAllowed : List GoString → GoString → Type 0
IsAllowed configured a =
    In a all_algorithms × ((b : GoString) → In b configured → In b all_algorithms → In a configured)

listed_algorithms_complete :
    (b : GoString) (xs : List GoString) → In b xs → In b all_algorithms → listed_algorithms xs ≢ []
unfolding listed_algorithms
listed_algorithms_complete b [] m known = absurd m
listed_algorithms_complete b (x ∷ xs) m known = elim (Bool-cases (is_listed x all_algorithms)) [
  | inl listed ↦ rw (listed, listed_algorithms) (λ e. cc e)
  | inr unlisted ↦
      rw (unlisted, listed_algorithms)
        (elim m [
          | inl e ↦ cc (
            unlisted,
            (is_listed_iff x all_algorithms).1 (subst (λ c. In c all_algorithms) e known),
          )
          | inr later ↦ listed_algorithms_complete b xs later known
        ])
]

supported_algorithms-IsAllowed :
    (configured : List GoString) (a : GoString)
    → In a (supported_algorithms configured)
    → IsAllowed configured a
unfolding supported_algorithms
supported_algorithms-IsAllowed [] a m = (m, λ b place known. absurd place)
supported_algorithms-IsAllowed (c ∷ cs) a m =
    elim (Bool-cases (is_empty (listed_algorithms (c ∷ cs)))) [
      | inl nothing ↦ (
        rw (nothing, supported_algorithms) at m,
        λ b place known. absurd (
            listed_algorithms_complete b (c ∷ cs) place known
              (is_empty-nil (listed_algorithms (c ∷ cs)) nothing)),
      )
      | inr something ↦
          let (place, known) =
            listed_algorithms_sound a (c ∷ cs) (rw (something, supported_algorithms) at m) in
          (known, λ b p k. place)
    ]

audience_contains_iff :
    (aud : List GoString) (want : GoString) → (audience_contains aud want ≡ true) ↔ In want aud
unfolding audience_contains
audience_contains_iff [] want = (λ h. cc, λ m. absurd m)
audience_contains_iff (a ∷ more) want = (
  λ h. ground (arith, str_eq_iff a want, (audience_contains_iff more want).0),
  λ h. ground (arith, str_eq_iff a want, (audience_contains_iff more want).1),
)

-- The issuer and the audience of a token are those configured, where any is.
abbrev pub Fits : AuthConfig → GoString → List GoString → Type 0
Fits cfg issuer audience =
    ((cfg.issuer ≡ []) ⊎ (issuer ≡ cfg.issuer)) × ((cfg.audience ≡ []) ⊎ In cfg.audience audience)

abbrev pub LacksTime : JwtClaims → Type 0
LacksTime c = (c.expires_at ≡ none) ⊎ (c.issued_at ≡ none)

-- Claims leave `check_claims` only if the issuer and the audience fit what is configured, and they
-- are the token's own.
check_claims_sound :
    (cfg : AuthConfig) (c : JwtClaims) (claims : Claims)
    → check_claims cfg c ≡ accepted claims
    → Fits cfg claims.issuer claims.audience × (claims.subject ≡ c.subject)
unfolding check_claims
check_claims_sound cfg c claims h = ground (
  arith,
  str_eq_iff cfg.issuer [],
  str_eq_iff c.issuer cfg.issuer,
  str_eq_iff cfg.audience [],
  (audience_contains_iff c.audience cfg.audience).0,
)

to_claims-panic_iff : (c : JwtClaims) → (to_claims c ≡ panic) ↔ LacksTime c
unfolding to_claims
to_claims-panic_iff c = elim (Option-cases c.expires_at) [
  | inl none_yet ↦ (λ h. inl none_yet, λ h. rw (none_yet, to_claims) refl)
  | inr (t, set) ↦ elim (Option-cases c.issued_at) [
    | inl absent ↦ (λ h. inr absent, λ h. rw (set, to_claims, absent) refl)
    | inr (i, issued) ↦
        (λ h. cc (rw (set, to_claims, issued) at h), λ h. elim h [ inl e ↦ cc e | inr e ↦ cc e ])
  ]
]

check_claims-panic_iff :
    (cfg : AuthConfig) (c : JwtClaims)
    → (check_claims cfg c ≡ panic) ↔ (Fits cfg c.issuer c.audience × LacksTime c)
unfolding check_claims
check_claims-panic_iff cfg c = (
  λ h. ground (
    arith,
    str_eq_iff cfg.issuer [],
    str_eq_iff c.issuer cfg.issuer,
    str_eq_iff cfg.audience [],
    (audience_contains_iff c.audience cfg.audience).0,
    (to_claims-panic_iff c).0,
  ),
  λ h. ground (
    arith,
    h,
    str_eq_iff cfg.issuer [],
    str_eq_iff c.issuer cfg.issuer,
    str_eq_iff cfg.audience [],
    (audience_contains_iff c.audience cfg.audience).1,
    (to_claims-panic_iff c).1,
  ),
)

module _ (jwt : Jwt) (cfg : AuthConfig) where
  -- A token of this key id that verifies under a key of the cache or of the fetched set.
  abbrev pub Verifies :
      Result GoString (List Jwk)
      → GoString
      → Assoc GoString Key
      → GoString
      → Key
      → JwtClaims
      → Type 0
  Verifies fetch token keys kid key c =
      (jwt.header (supported_algorithms cfg.algorithms) token ≡ ok kid)
      × IsKnown jwt.decode fetch kid keys key
      × (jwt.verify token key ≡ ok c)

  -- A token is accepted only if its algorithm is one that the server verifies, and one of those
  -- configured where any of them is such, its header names a key id for which the cache has the key
  -- or, if it has none, the fetched key set has it, the token verifies under that key, and the
  -- issuer and the audience are those configured, where any is; provided that the JWT library
  -- refuses a token whose algorithm is not listed.
  pub validate_token_sound :
      (algorithm : GoString → GoString)
      (refuses : (listed : List GoString) (token kid : GoString)
        → jwt.header listed token ≡ ok kid
        → In (algorithm token) listed)
      (fetch : Result GoString (List Jwk)) (token : GoString) (keys : Assoc GoString Key)
      (claims : Claims)
      → (validate_token jwt cfg fetch token keys).0 ≡ accepted claims
      → IsAllowed cfg.algorithms (algorithm token)
        × (kid : GoString) × (key : Key) × (c : JwtClaims) × Verifies fetch token keys kid key c
        × (claims.subject ≡ c.subject)
        × Fits cfg claims.issuer claims.audience
  unfolding validate_token
  validate_token_sound algorithm refuses fetch token keys claims h =
      let listed = supported_algorithms cfg.algorithms in
      elim (Result-cases (jwt.header listed token)) [
        | inl (e, bad) ↦ cc (rw (bad, validate_token) at h)
        | inr (kid, named) ↦ elim (Result-cases (keyfunc jwt.decode fetch kid keys).0) [
          | inl (e, bad) ↦ cc (rw (named, validate_token, bad) at h)
          | inr (key, found) ↦ elim (Result-cases (jwt.verify token key)) [
            | inl (e, bad) ↦ cc (rw (named, validate_token, found, bad) at h)
            | inr (c, good) ↦
                let (fits, subject) =
                  check_claims_sound cfg c claims (rw (named, validate_token, found, good) at h) in
                (
                  supported_algorithms-IsAllowed cfg.algorithms (algorithm token)
                      (refuses listed token kid named),
                  kid,
                  key,
                  c,
                  (named, keyfunc-IsKnown jwt.decode fetch kid keys key found, good),
                  subject,
                  fits,
                )
          ]
        ]
      ]

  -- ValidateToken dereferences a nil pointer exactly if the token verifies under a key of the cache
  -- or of the fetched set, its issuer and audience are those configured, where any is, and it lacks
  -- the expiry or the `iat` claim.
  pub validate_token-panic_iff :
      (fetch : Result GoString (List Jwk)) (token : GoString) (keys : Assoc GoString Key)
      → ((validate_token jwt cfg fetch token keys).0 ≡ panic) ↔ (
          (kid : GoString) × (key : Key) × (c : JwtClaims) × Verifies fetch token keys kid key c
          × Fits cfg c.issuer c.audience
          × LacksTime c)
  unfolding validate_token
  validate_token-panic_iff fetch token keys = (
    λ h. elim (Result-cases (jwt.header (supported_algorithms cfg.algorithms) token)) [
      | inl (e, bad) ↦ cc (rw (bad, validate_token) at h)
      | inr (kid, named) ↦ elim (Result-cases (keyfunc jwt.decode fetch kid keys).0) [
        | inl (e, bad) ↦ cc (rw (named, validate_token, bad) at h)
        | inr (key, found) ↦ elim (Result-cases (jwt.verify token key)) [
          | inl (e, bad) ↦ cc (rw (named, validate_token, found, bad) at h)
          | inr (c, good) ↦
              let lacks =
                (check_claims-panic_iff cfg c).0 (rw (named, validate_token, found, good) at h) in
              (
                kid,
                key,
                c,
                (named, keyfunc-IsKnown jwt.decode fetch kid keys key found, good),
                lacks.0,
                lacks.1,
              )
        ]
      ]
    ],
    λ (kid, key, c, (named, known, good), fits, lacks).
        let found = IsKnown-keyfunc jwt.decode fetch kid keys key known in
        rw (named, validate_token, found, good) ((check_claims-panic_iff cfg c).1 (fits, lacks)),
  )
