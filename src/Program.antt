-- ===== src/Program.antt =====
-- cmd/rdapd/main.go: run, from the configuration to the end of the process. What the packages
-- answer is a parameter: the loaded configuration, the opened storage backend, whether the WHOIS
-- socket is bound, and what the shutdowns return. The goroutines of the servers go on beside it, so
-- only their start is an effect.
pub mod Shutdown
pub mod Balance
use go_rdap_server.Base.{
  Bool, true, false, not, ◌&&◌, Option, none, some, List, [], ◌∷◌, ◌++◌, if◌then◌else◌, is_empty,
  Result, ok, err, GoString, str,
}
use go_rdap_server.Config.{Config, ServerConfig, StorageConfig, MetricsConfig}

pub data Effect : Type 0 where
  opens_store closes_store : Effect
  starts_metrics stops_metrics : Effect
  listens_whois serves_whois stops_whois : Effect
  starts_server stops_server : Effect
  starts_tls_server : Effect
  waits_for_signal cancels : Effect
  logs : GoString → Effect

pub record Env : Type 1 where
  pub Store : Type 0
  pub loaded : Result GoString Config
  pub opened : StorageConfig → Result GoString Store
  pub listened : Option GoString
  pub server_stopped : Option GoString
  pub metrics_stopped : Option GoString
  pub whois_stopped : Option GoString

-- The effects, in their order, and the error that is returned.
abbrev pub Run : Type 0
Run = List Effect × Option GoString

-- What is run after a function has returned.
abbrev pub deferred : List Effect → Run → Run
deferred last (effects, e) = (effects ++ last, e)

abbrev pub before : List Effect → Run → Run
before first (effects, e) = (first ++ effects, e)

-- An error of a shutdown that is only logged.
abbrev pub logged : GoString → Option GoString → List Effect
logged message none = []
logged message (some e) = logs message ∷ []

-- metrics.NewServer gives a server only if metrics are enabled.
abbrev pub metrics_stop : Env → Config → List Effect
metrics_stop env cfg =
    if cfg.metrics.enabled
    then stops_metrics ∷ logged (str "metrics server forced to shutdown") env.metrics_stopped
    else []

abbrev pub whois_stop : Env → Config → List Effect
whois_stop env cfg =
    if cfg.whois.enabled
    then stops_whois ∷ logged (str "whois server forced to shutdown") env.whois_stopped
    else []

-- srv.Shutdown and what follows it.
abbrev pub after_server : Env → Config → Option GoString → Run
after_server env cfg (some e) = ([], some (str "server forced to shutdown: " ++ e))
after_server env cfg none =
    (metrics_stop env cfg ++ whois_stop env cfg ++ logs (str "server exited") ∷ [], none)

abbrev pub uses_tls : ServerConfig → Bool
uses_tls s = not (is_empty s.tls_cert_file) && not (is_empty s.tls_key_file)

-- From the start of the RDAP server on.
unfoldable pub serve_until_signal : Env → Config → Run
serve_until_signal env cfg =
    before
      ((if uses_tls cfg.server then starts_tls_server else starts_server)
        ∷ waits_for_signal
        ∷ cancels
        ∷ logs (str "shutting down servers...")
        ∷ stops_server
        ∷ [])
      (after_server env cfg env.server_stopped)

-- The WHOIS gateway, if it is enabled.
abbrev pub listening : Env → Config → Option GoString → Run
listening env cfg (some e) = (listens_whois ∷ [], some e)
listening env cfg none = before (listens_whois ∷ serves_whois ∷ []) (serve_until_signal env cfg)

-- From the opened storage backend on.
unfoldable pub with_store : Env → Config → Run
unfolding serve_until_signal
with_store env cfg =
    before (opens_store ∷ (if cfg.metrics.enabled then starts_metrics ∷ [] else []))
      (if cfg.whois.enabled then listening env cfg env.listened else serve_until_signal env cfg)

abbrev pub stored : Env → Config → {A : Type 0} → Result GoString A → Run
stored env cfg (err e) = ([], some (str "failed to init store: " ++ e))
stored env cfg (ok st) = deferred (closes_store ∷ []) (with_store env cfg)

abbrev pub configured : Env → Result GoString Config → Run
configured env (err e) = ([], some (str "failed to load config: " ++ e))
configured env (ok cfg) = stored env cfg (env.opened cfg.storage)

unfoldable pub run : Env → Run
unfolding with_store
run env = deferred (cancels ∷ []) (configured env env.loaded)
