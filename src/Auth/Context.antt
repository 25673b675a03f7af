-- ===== src/Auth/Context.antt =====
-- internal/auth/auth.go: the authenticator that accepts every token, and the claims in a context.
use go_rdap_server.Base.{Option, none, some, [], GoString, str, false, pos}
use go_rdap_server.Auth.Tokens.{Claims, Outcome, accepted}

unfoldable pub noop_validate_token : GoString → Outcome
noop_validate_token token = accepted (record {
  subject = str "anonymous";
  issuer = str "rdap-server";
  audience = [];
  expiry = pos 0;
  issued_at = pos 0;
  scope = str "read";
  allowed_purposes = [];
  do_not_track_allowed = false;
})

-- The value of the context under ClaimsKey, if it is a *Claims.
unfoldable pub get_claims : Option Claims → Option Claims
get_claims none = none
get_claims (some claims) = some claims
