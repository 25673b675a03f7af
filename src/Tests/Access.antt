-- ===== src/Tests/Access.antt =====
-- Who is let through: tokens, addresses and the chain in front of the handlers.
use go_rdap_server.Domain.{Assoc, lookup, put}
use go_rdap_server.Auth.Keys.{
  Key, Jwk, keyfunc, refresh_keys, collect_keys, parse_jwk, base64_url_big_int, set_bytes,
}
use go_rdap_server.Base.{
  Bool, Bool-cases, GoString, In, List, Option, Result, [], drop, err, false, has_prefix,
  if◌then◌else◌, inl, inr, is_ascii_text, is_space, ok, refl, some, str, str_eq, trim_left,
  trim_prefix, trim_right, trim_space, true, ℕ, ◌++◌, ◌↔◌, ◌∷◌, ◌≡◌, ◌≢◌, ◌⊎◌,
}
use go_rdap_server.Config.{Config, is_listed}
use go_rdap_server.Auth.Keys.Origin.{IsPublished, refresh_keys-IsPublished}
use go_rdap_server.Auth.Tokens.{
  Claims, JwtClaims, accepted, panic, validate_token, supported_algorithms, check_claims, to_claims,
}
use go_rdap_server.Auth.Tokens.Laws.{
  IsAllowed, Verifies, Fits, LacksTime, is_listed_iff, validate_token_sound,
  validate_token-panic_iff,
}
use go_rdap_server.Config.{is_listed}
use go_rdap_server.Middleware.Bearer.{pass, authenticate, bearer_token}
use go_rdap_server.Middleware.Bearer.Laws.{authenticate-pass_iff}
use go_rdap_server.Middleware.ClientIp.{
  peer_ip, parse_cidrs, resolve_client, parse_entry, ip_allowed, any_contains,
}
use go_rdap_server.Middleware.ClientIp.Spoofing.{IsTrusted, ip_allowed_iff, headers_ignored}
use go_rdap_server.Handlers.Searches.{search_not_implemented}
use go_rdap_server.Handlers.Routes.{Endpoint, handle}
use go_rdap_server.Handlers.Routes
use go_rdap_server.Server.{handled, serve, limited_addr, Request}
use go_rdap_server.Server.Chain.{chain, through, through-chain}
use go_rdap_server.Auth.Keys.Concurrent.{
  Cache, Call, missed, fetched, stored, returned, first_look, second_look, with_call, fetch, looks,
  fetches, stores, retries, Reach, start, later,
}
use go_rdap_server.Auth.Keys.Concurrent.Published.{IsServed, new_cache, returned-IsServed}
use go_rdap_server.Server.Gate.{handled_complete, handled_sound}
use go_rdap_server.Tests.Data.{
  unicode, net, jwt, key, validate, claims, config, auth_config, handler, platform, server_request,
  client,
}

abbrev allow_all : GoString → Bool
allow_all address = true

handled_sound_example :
    (search_not_implemented server_request.http
      ≡ handle platform handler Routes.not_implemented server_request.http)
    × ((true ≡ false)
        ⊎ ((token : GoString) × (c : Claims) × (str "Bearer t" ≡ str "Bearer " ++ token)
            × (token ≢ [])
            × (validate token ≡ accepted c)))
    × ((true ≡ false)
        ⊎ (allow_all (limited_addr net allow_all validate platform config server_request) ≡ true))
unfolding serve limited_addr authenticate bearer_token str_eq handle trim_prefix has_prefix drop
handled_sound_example =
    handled_sound net allow_all validate platform config handler Routes.not_implemented
      server_request (search_not_implemented server_request.http) refl

abbrev keys : Assoc GoString Key
keys = (str "k", key) ∷ []

abbrev no_answer : Result GoString (List Jwk)
no_answer = err (str "offline")

rs256 : GoString → GoString
rs256 token = str "RS256"

jwt-refuses :
    (listed : List GoString) (token kid : GoString)
    → jwt.header listed token ≡ ok kid
    → In (rs256 token) listed
unfolding rs256
jwt-refuses listed token kid h = elim (Bool-cases (is_listed (str "RS256") listed)) [
  | inl known ↦ (is_listed_iff (str "RS256") listed).0 known
  | inr unknown ↦ cc (rw unknown at h)
]

validate_token_sound_example :
    IsAllowed auth_config.algorithms (rs256 (str "t"))
    × (kid : GoString) × (k : Key) × (c : JwtClaims) × Verifies jwt auth_config no_answer
        (str "t")
        keys
        kid
        k
        c
    × (claims.subject ≡ c.subject)
    × Fits auth_config claims.issuer claims.audience
unfolding validate_token keyfunc lookup str_eq check_claims to_claims is_listed supported_algorithms
validate_token_sound_example =
    validate_token_sound jwt auth_config rs256 jwt-refuses no_answer (str "t") keys claims refl

validate_token-panic_iff_example :
    ((validate_token jwt auth_config no_answer (str "x") keys).0 ≡ panic) ↔ (
      (kid : GoString) × (k : Key) × (c : JwtClaims) × Verifies jwt auth_config no_answer
        (str "x")
        keys
        kid
        k
        c
      × Fits auth_config c.issuer c.audience
      × LacksTime c)
validate_token-panic_iff_example = validate_token-panic_iff jwt auth_config no_answer (str "x") keys

panics : (validate_token jwt auth_config no_answer (str "x") keys).0 ≡ panic
unfolding validate_token keyfunc lookup str_eq check_claims to_claims is_listed supported_algorithms
panics = refl

authenticate-pass_iff_example : (authenticate validate (str "Bearer t") ≡ pass claims) ↔ (
    (token : GoString) × (str "Bearer t" ≡ str "Bearer " ++ token)
    × (token ≢ [])
    × (validate token ≡ accepted claims))
authenticate-pass_iff_example = authenticate-pass_iff validate (str "Bearer t") claims

abbrev proxies : List GoString
proxies = str "10.0.0.1" ∷ []

not_allowed :
    ip_allowed unicode net (peer_ip unicode net (str "1.2.3.4")) (parse_cidrs unicode net proxies)
    ≡ false
unfolding parse_cidrs parse_entry peer_ip ip_allowed any_contains str_eq trim_space trim_left
    trim_right is_ascii_text is_space
not_allowed = refl

untrusted :
    ¬ IsTrusted unicode net (parse_cidrs unicode net proxies) (peer_ip unicode net (str "1.2.3.4"))
untrusted h = cc (
  not_allowed,
  (ip_allowed_iff unicode net (parse_cidrs unicode net proxies)
        (peer_ip unicode net (str "1.2.3.4"))).1
      h,
)

headers_ignored_example :
    ((resolve_client unicode net proxies (client (str "1.2.3.4") (str "9.9.9.9"))).1
      ≡ peer_ip unicode net (str "1.2.3.4"))
    × ((resolve_client unicode net proxies (client (str "1.2.3.4") [])).1
        ≡ (resolve_client unicode net proxies (client (str "1.2.3.4") (str "9.9.9.9"))).1)
    × ((resolve_client unicode net proxies (client (str "1.2.3.4") [])).0.remote_addr
        ≡ (resolve_client unicode net proxies
            (client (str "1.2.3.4") (str "9.9.9.9"))).0.remote_addr)
headers_ignored_example =
    headers_ignored unicode net proxies (client (str "1.2.3.4") (str "9.9.9.9"))
      (client (str "1.2.3.4") []) untrusted refl

abbrev plain_request : Request
plain_request = record server_request { client = client (str "1.2.3.4") [] }

abbrev open_config : Config
open_config = record config { auth = record auth_config { enabled = false } }

handled_complete_example :
    serve net allow_all validate platform open_config handler Routes.not_implemented server_request
    ≡ handled (handle platform handler Routes.not_implemented server_request.http)
handled_complete_example =
    handled_complete net allow_all validate platform open_config handler Routes.not_implemented
      server_request (inl refl) (inr refl)

-- The document of one key, whose numbers decode to 77 and 3.
abbrev jwk : Jwk
jwk = (str "kid", str "k") ∷ (str "kty", str "RSA") ∷ (str "n", str "N") ∷ (str "e", str "E") ∷ []

abbrev decode_byte : GoString → Option (List ℕ)
decode_byte s = if str_eq s (str "N") then some (77 ∷ []) else some (3 ∷ [])

refresh_keys-IsPublished_example : IsPublished decode_byte (jwk ∷ []) (str "k") key
unfolding refresh_keys collect_keys parse_jwk base64_url_big_int set_bytes lookup put str_eq
refresh_keys-IsPublished_example =
    refresh_keys-IsPublished decode_byte (jwk ∷ []) ((str "k", key) ∷ []) (str "k") key refl refl

through-chain_example :
    through net allow_all validate platform open_config
      (chain open_config)
      (λ q. handled (handle platform handler Routes.not_implemented q.http))
      server_request
    ≡ serve net allow_all validate platform open_config handler Routes.not_implemented
        server_request
through-chain_example =
    through-chain net allow_all validate platform open_config handler Routes.not_implemented
      server_request

-- A cache all of whose calls ask for "k", in which call 0 misses, refreshes and returns.
abbrev asked_for : ℕ → GoString
asked_for i = str "k"

abbrev fresh : Assoc GoString Key
fresh = (str "k", key) ∷ []

abbrev after : Cache → Call → Cache
after c call = record c { calls = with_call 0 call c.calls }

abbrev looked : Cache
looked = after (new_cache decode_byte asked_for) (missed (str "k"))

abbrev answered : Cache
answered = record (after looked (fetched (str "k") fresh)) { served = (jwk ∷ []) ∷ [] }

abbrev written : Cache
written = record (after answered (stored (str "k"))) { keys = fresh }

abbrev finished : Cache
finished = after written (returned (str "k") (ok key))

finished-Reach : Reach decode_byte (new_cache decode_byte asked_for) finished
unfolding first_look second_look fetch refresh_keys collect_keys parse_jwk base64_url_big_int
    set_bytes lookup put str_eq
finished-Reach =
    let began = start (new_cache decode_byte asked_for) in
    let looking =
      later _ _ looked began (looks (new_cache decode_byte asked_for) 0 (str "k") refl) in
    let asking = later _ _ answered looking (fetches looked 0 (str "k") (jwk ∷ []) refl) in
    let writing = later _ _ written asking (stores answered 0 (str "k") fresh refl) in
    later _ _ finished writing (retries written 0 (str "k") refl)

returned-IsServed_example : IsServed decode_byte ((jwk ∷ []) ∷ []) (str "k") key
returned-IsServed_example =
    returned-IsServed decode_byte asked_for finished 0 (str "k") key finished-Reach refl
