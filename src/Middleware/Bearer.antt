-- ===== src/Middleware/Bearer.antt =====
-- internal/middleware/auth.go: the check of the Authorization header. `validate` is ValidateToken.
pub mod Laws
use go_rdap_server.Base.{◌||◌, [], ◌∷◌, if◌then◌else◌, GoString, str, str_eq, trim_prefix}
use go_rdap_server.Auth.Tokens.{Claims, Outcome, accepted, rejected, panic}

-- A refusal, status 401, has the WWW-Authenticate challenge's error and its description; else the
-- next handler runs with the claims in its context. A panic of ValidateToken goes on to the caller.
pub data Verdict : Type 0 where
  unauthorized : (error description : GoString) → Verdict
  pass : Claims → Verdict
  panicked : Verdict

unfoldable pub bearer_token : GoString → GoString
bearer_token auth_header = trim_prefix (str "Bearer ") auth_header

abbrev judge : Outcome → Verdict
judge (rejected e) = unauthorized (str "invalid_token") (str "Invalid or expired token")
judge (accepted claims) = pass claims
judge panic = panicked

module _ (validate : GoString → Outcome) where
  unfoldable pub authenticate : GoString → Verdict
  unfolding bearer_token
  authenticate auth_header =
      if str_eq auth_header []
      then unauthorized (str "invalid_request") (str "Authorization header required")
      else if str_eq (bearer_token auth_header) auth_header || str_eq (bearer_token auth_header) []
      then unauthorized (str "invalid_token") (str "Bearer token required")
      else judge (validate (bearer_token auth_header))
