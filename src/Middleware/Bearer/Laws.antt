-- ===== src/Middleware/Bearer/Laws.antt =====
-- Which Authorization headers let a request through.
use go_rdap_server.Base.{
  ◌≡◌, ◌≢◌, ◌↔◌, ◌⊎◌, ◌++◌, [], inl, inr, ap, arith, refl, Bool-cases, length, length-append,
  GoString, str, str_eq_iff, trim_prefix, has_prefix, append-drop, trim_prefix-append,
}
use go_rdap_server.Auth.Tokens.{Claims, Outcome, accepted}
use go_rdap_server.Middleware.Bearer.{pass, authenticate, bearer_token}

trim_prefix-cases : (p s : GoString) → (trim_prefix p s ≡ s) ⊎ (s ≡ p ++ trim_prefix p s)
unfolding trim_prefix
trim_prefix-cases p s = elim (Bool-cases (has_prefix p s)) [
  | inl h ↦ rw h (inr (append-drop p s h))
  | inr h ↦ rw h (inl refl)
]

-- A header of the scheme: what follows "Bearer ".
bearer_header :
    (auth_header : GoString)
    → bearer_token auth_header ≢ auth_header
    → auth_header ≡ str "Bearer " ++ bearer_token auth_header
unfolding bearer_token
bearer_header s h = elim (trim_prefix-cases (str "Bearer ") s) [ inl e ↦ absurd (h e) | inr e ↦ e ]

bearer_token-append : (t : GoString) → bearer_token (str "Bearer " ++ t) ≡ t
unfolding bearer_token
bearer_token-append t = trim_prefix-append (str "Bearer ") t

longer : (t : GoString) → t ≢ str "Bearer " ++ t
longer t e = absurd (omega (arith, ap length e, length-append (str "Bearer ") t))

module _ (validate : GoString → Outcome) where
  authenticate_sound :
      (s : GoString) (claims : Claims)
      → authenticate validate s ≡ pass claims
      → (token : GoString) × (s ≡ str "Bearer " ++ token)
        × (token ≢ [])
        × (validate token ≡ accepted claims)
  unfolding authenticate
  authenticate_sound s claims h = (
    bearer_token s,
    bearer_header s (ground (arith, str_eq_iff (bearer_token s) s)),
    ground (arith, str_eq_iff (bearer_token s) []),
    ground arith,
  )

  authenticate_complete :
      (s : GoString) (claims : Claims)
      → (token : GoString) × (s ≡ str "Bearer " ++ token)
        × (token ≢ [])
        × (validate token ≡ accepted claims)
      → authenticate validate s ≡ pass claims
  unfolding authenticate
  authenticate_complete s claims (token, e, some_token, ok_token) = rw e (
      rw bearer_token-append (
        ground (
          arith,
          str_eq_iff token [],
          str_eq_iff token (str "Bearer " ++ token),
          longer token,
          str_eq_iff (str "Bearer " ++ token) [],
        )))

  -- The next handler runs exactly if the header is "Bearer " and a token that is not empty and that
  -- ValidateToken accepts, and it runs with the claims of that token.
  pub authenticate-pass_iff :
      (auth_header : GoString) (claims : Claims)
      → (authenticate validate auth_header ≡ pass claims) ↔ (
          (token : GoString) × (auth_header ≡ str "Bearer " ++ token)
          × (token ≢ [])
          × (validate token ≡ accepted claims))
  authenticate-pass_iff s claims = (authenticate_sound s claims, authenticate_complete s claims)
