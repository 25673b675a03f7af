-- ===== src/Program/Shutdown.antt =====
-- cmd/rdapd/main.go: what run leaves behind.
use go_rdap_server.Base.{
  ◌≡◌, refl, ℕ, ◌+◌, none, List, [], ◌∷◌, ◌++◌, arith, if◌then◌else◌, GoString, str,
}
use go_rdap_server.Config.{Config}
use go_rdap_server.Program.{
  Effect, opens_store, closes_store, starts_metrics, stops_metrics, serves_whois, stops_whois,
  starts_server, stops_server, starts_tls_server, waits_for_signal, cancels, logs, Env,
  metrics_stop, whois_stop, serve_until_signal, uses_tls,
}

-- What a process holds: a storage backend, and three servers.
pub data Resource : Type 0 where
  store metrics whois http : Resource

-- How many times an effect takes a resource, and how many times it gives it back.
abbrev pub taken : Resource → Effect → ℕ
taken store opens_store = 1
taken metrics starts_metrics = 1
taken whois serves_whois = 1
taken http starts_server = 1
taken http starts_tls_server = 1
taken r e = 0

abbrev pub given_back : Resource → Effect → ℕ
given_back store closes_store = 1
given_back metrics stops_metrics = 1
given_back whois stops_whois = 1
given_back http stops_server = 1
given_back r e = 0

unfoldable pub total : (Effect → ℕ) → List Effect → ℕ
total f [] = 0
total f (e ∷ es) = f e + total f es

-- The total of two lists.
pub total-append :
    (f : Effect → ℕ) (xs ys : List Effect) → total f (xs ++ ys) ≡ total f xs + total f ys
unfolding total
total-append f [] ys = omega arith
total-append f (x ∷ xs) ys = omega (arith, total-append f xs ys)

-- As many times given back as taken.
abbrev pub IsBalanced : Resource → List Effect → Type 0
IsBalanced r es = total (taken r) es ≡ total (given_back r) es

metrics_stop-total :
    (env : Env) (cfg : Config) (r : Resource)
    → (total (taken r) (metrics_stop env cfg) ≡ 0)
      × (total (given_back r) (metrics_stop env cfg)
          ≡ (if cfg.metrics.enabled then given_back r stops_metrics else 0))
unfolding total
metrics_stop-total env cfg store = (ground arith, ground arith)
metrics_stop-total env cfg metrics = (ground arith, ground arith)
metrics_stop-total env cfg whois = (ground arith, ground arith)
metrics_stop-total env cfg http = (ground arith, ground arith)

whois_stop-total :
    (env : Env) (cfg : Config) (r : Resource)
    → (total (taken r) (whois_stop env cfg) ≡ 0)
      × (total (given_back r) (whois_stop env cfg)
          ≡ (if cfg.whois.enabled then given_back r stops_whois else 0))
unfolding total
whois_stop-total env cfg store = (ground arith, ground arith)
whois_stop-total env cfg metrics = (ground arith, ground arith)
whois_stop-total env cfg whois = (ground arith, ground arith)
whois_stop-total env cfg http = (ground arith, ground arith)

-- The end of a shutdown that goes well.
abbrev ending : Env → Config → List Effect
ending env cfg = metrics_stop env cfg ++ whois_stop env cfg ++ logs (str "server exited") ∷ []

ending-total :
    (f : Effect → ℕ) (env : Env) (cfg : Config)
    → total f (ending env cfg)
      ≡ total f (metrics_stop env cfg)
        + total f (whois_stop env cfg)
        + f (logs (str "server exited"))
unfolding total
ending-total f env cfg = omega (
  arith,
  total-append f (metrics_stop env cfg ++ whois_stop env cfg) (logs (str "server exited") ∷ []),
  total-append f (metrics_stop env cfg) (whois_stop env cfg),
)

-- The effects of `serve_until_signal` in front of its ending.
abbrev opening : Config → List Effect
opening cfg =
    (if uses_tls cfg.server then starts_tls_server else starts_server)
    ∷ waits_for_signal
    ∷ cancels
    ∷ logs (str "shutting down servers...")
    ∷ stops_server
    ∷ []

served-eq :
    (env : Env) (cfg : Config)
    → env.server_stopped ≡ none
    → serve_until_signal env cfg ≡ (opening cfg ++ ending env cfg, none)
unfolding serve_until_signal
served-eq env cfg e = rw (e, serve_until_signal) refl

opening-total :
    (cfg : Config) (r : Resource)
    → (total (taken r) (opening cfg) ≡ taken r starts_server)
      × (total (given_back r) (opening cfg) ≡ given_back r stops_server)
unfolding total
opening-total cfg store = (ground arith, ground arith)
opening-total cfg metrics = (ground arith, ground arith)
opening-total cfg whois = (ground arith, ground arith)
opening-total cfg http = (ground arith, ground arith)

log-total : (r : Resource) (s : GoString) → (taken r (logs s) ≡ 0) × (given_back r (logs s) ≡ 0)
log-total store s = (refl, refl)
log-total metrics s = (refl, refl)
log-total whois s = (refl, refl)
log-total http s = (refl, refl)

-- What the servers take and give back, if the RDAP server stops without an error.
pub served-total :
    (env : Env) (cfg : Config) (r : Resource)
    → env.server_stopped ≡ none
    → (total (taken r) (serve_until_signal env cfg).0 ≡ taken r starts_server)
      × (total (given_back r) (serve_until_signal env cfg).0
          ≡ given_back r stops_server
            + (if cfg.metrics.enabled then given_back r stops_metrics else 0)
            + (if cfg.whois.enabled then given_back r stops_whois else 0))
served-total env cfg r e = rw (served-eq env cfg e) (
  omega (
    arith,
    total-append (taken r) (opening cfg) (ending env cfg),
    ending-total (taken r) env cfg,
    metrics_stop-total env cfg r,
    whois_stop-total env cfg r,
    opening-total cfg r,
    log-total r (str "server exited"),
  ),
  omega (
    arith,
    total-append (given_back r) (opening cfg) (ending env cfg),
    ending-total (given_back r) env cfg,
    metrics_stop-total env cfg r,
    whois_stop-total env cfg r,
    opening-total cfg r,
    log-total r (str "server exited"),
  ),
)
