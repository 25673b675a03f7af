-- ===== src/Program/Balance.antt =====
-- cmd/rdapd/main.go: run gives back what it takes.
use go_rdap_server.Base.{
  ◌≡◌, refl, sym, ◌∙◌, ◌⊎◌, inl, inr, ◌+◌, Bool, true, false, none, some, List, [], ◌∷◌, ◌++◌,
  arith, if◌then◌else◌, GoString, Bool-cases, Option-cases, Result-cases,
}
use go_rdap_server.Config.{Config}
use go_rdap_server.Program.{
  Effect, opens_store, closes_store, starts_metrics, stops_metrics, listens_whois, serves_whois,
  stops_whois, starts_server, stops_server, cancels, Env, serve_until_signal, with_store, run,
  before,
}
use go_rdap_server.Program.Shutdown.{
  Resource, store, metrics, whois, http, taken, given_back, total, total-append, IsBalanced,
  served-total,
}

-- The store is neither opened nor closed by the servers, however they end.
served-store :
    (env : Env) (cfg : Config)
    → (total (taken store) (serve_until_signal env cfg).0 ≡ 0)
      × (total (given_back store) (serve_until_signal env cfg).0 ≡ 0)
unfolding serve_until_signal total
served-store env cfg = elim (Option-cases env.server_stopped) [
  | inl fine ↦ (
    ground (arith, served-total env cfg store fine),
    ground (arith, served-total env cfg store fine),
  )
  | inr (e, bad) ↦ rw (bad, serve_until_signal) (ground arith, ground arith)
]

-- What is done before the servers, on each of the ways there.
abbrev started : Config → List Effect
started cfg = opens_store ∷ (if cfg.metrics.enabled then starts_metrics ∷ [] else [])

with_store-quiet :
    (env : Env) (cfg : Config)
    → cfg.whois.enabled ≡ false
    → with_store env cfg ≡ before (started cfg) (serve_until_signal env cfg)
unfolding with_store
with_store-quiet env cfg off = rw (off, with_store) refl

with_store-listening :
    (env : Env) (cfg : Config)
    → cfg.whois.enabled ≡ true
    → env.listened ≡ none
    → with_store env cfg
      ≡ before (started cfg ++ listens_whois ∷ serves_whois ∷ []) (serve_until_signal env cfg)
unfolding with_store
with_store-listening env cfg on fine = rw (on, fine, with_store) (ground arith)

with_store-refused :
    (env : Env) (cfg : Config) (e : GoString)
    → cfg.whois.enabled ≡ true
    → env.listened ≡ some e
    → with_store env cfg ≡ (started cfg ++ listens_whois ∷ [], some e)
unfolding with_store
with_store-refused env cfg e on bad = rw (on, bad, with_store) refl

started-total :
    (cfg : Config) (r : Resource)
    → (total (taken r) (started cfg)
        ≡ taken r opens_store + (if cfg.metrics.enabled then taken r starts_metrics else 0))
      × (total (given_back r) (started cfg) ≡ 0)
unfolding total
started-total cfg store = (ground arith, ground arith)
started-total cfg metrics = (ground arith, ground arith)
started-total cfg whois = (ground arith, ground arith)
started-total cfg http = (ground arith, ground arith)

-- The ways from the opened store.
with_store-cases :
    (env : Env) (cfg : Config)
    → ((cfg.whois.enabled ≡ false)
        × (with_store env cfg ≡ before (started cfg) (serve_until_signal env cfg)))
      ⊎ (((cfg.whois.enabled ≡ true)
            × (with_store env cfg
                ≡ before
                    (started cfg ++ listens_whois ∷ serves_whois ∷ [])
                    (serve_until_signal env cfg)))
          ⊎ ((e : GoString) × (with_store env cfg ≡ (started cfg ++ listens_whois ∷ [], some e))))
with_store-cases env cfg = elim (Bool-cases cfg.whois.enabled) [
  | inr off ↦ inl (off, with_store-quiet env cfg off)
  | inl on ↦ elim (Option-cases env.listened) [
    | inl fine ↦ inr (inl (on, with_store-listening env cfg on fine))
    | inr (e, bad) ↦ inr (inr (e, with_store-refused env cfg e on bad))
  ]
]

with_store-store :
    (env : Env) (cfg : Config)
    → (total (taken store) (with_store env cfg).0 ≡ 1)
      × (total (given_back store) (with_store env cfg).0 ≡ 0)
unfolding total
with_store-store env cfg =
    let f = taken store in
    let g = given_back store in
    let first = started cfg in
    let rest = (serve_until_signal env cfg).0 in
    let (takes, gives) = started-total cfg store in
    let (takes_on, gives_on) = served-store env cfg in
    elim (with_store-cases env cfg) [
      | inl (off, e) ↦ rw e (
        ground (arith, total-append f first rest, takes, takes_on),
        ground (arith, total-append g first rest, gives, gives_on),
      )
      | inr (inl (on, e)) ↦
          let way = listens_whois ∷ serves_whois ∷ [] in
          rw e (
            ground (
              arith,
              total-append f (first ++ way) rest,
              total-append f first way,
              takes,
              takes_on,
            ),
            ground (
              arith,
              total-append g (first ++ way) rest,
              total-append g first way,
              gives,
              gives_on,
            ),
          )
      | inr (inr (x, e)) ↦
          let way = listens_whois ∷ [] in
          rw e (
            ground (arith, total-append f first way, takes),
            ground (arith, total-append g first way, gives),
          )
    ]

-- Whatever fails, run closes the storage backend exactly as often as it opens it.
pub run-store : (env : Env) → IsBalanced store (run env).0
unfolding run total
run-store env = elim (Result-cases env.loaded) [
  | inl (e, bad) ↦ rw (bad, run) refl
  | inr (cfg, good) ↦ elim (Result-cases (env.opened cfg.storage)) [
    | inl (e, bad) ↦ rw (good, bad, run) refl
    | inr (st, opened) ↦
        rw (good, opened, run)
          (ground (
            arith,
            total-append (taken store) ((with_store env cfg).0 ++ closes_store ∷ []) (cancels ∷ []),
            total-append (taken store) (with_store env cfg).0 (closes_store ∷ []),
            total-append (given_back store) ((with_store env cfg).0 ++ closes_store ∷ [])
                (cancels ∷ []),
            total-append (given_back store) (with_store env cfg).0 (closes_store ∷ []),
            with_store-store env cfg,
          ))
  ]
]

served-stopped :
    (env : Env) (cfg : Config) → (serve_until_signal env cfg).1 ≡ none → env.server_stopped ≡ none
unfolding serve_until_signal
served-stopped env cfg h = elim (Option-cases env.server_stopped) [
  | inl fine ↦ fine
  | inr (e, bad) ↦ cc (rw (bad, serve_until_signal) at h)
]

way-total :
    (r : Resource)
    → (total (taken r) (listens_whois ∷ serves_whois ∷ []) ≡ taken r serves_whois)
      × (total (given_back r) (listens_whois ∷ serves_whois ∷ []) ≡ 0)
unfolding total
way-total store = (refl, refl)
way-total metrics = (refl, refl)
way-total whois = (refl, refl)
way-total http = (refl, refl)

-- The sums agree for each resource.
finish-total :
    (m w : Bool) (r : Resource)
    → taken r opens_store
        + (if m then taken r starts_metrics else 0)
        + (if w then taken r serves_whois else 0)
        + taken r starts_server
        + (taken r closes_store + taken r cancels)
      ≡ given_back r stops_server
        + (if m then given_back r stops_metrics else 0)
        + (if w then given_back r stops_whois else 0)
        + (given_back r closes_store + given_back r cancels)
finish-total m w store = ground arith
finish-total m w metrics = ground arith
finish-total m w whois = ground arith
finish-total m w http = ground arith

-- What is given back by a run that went well, with what is deferred.
finish-IsBalanced :
    (m w : Bool) (r : Resource) (es : List Effect)
    → total (taken r) es
      ≡ taken r opens_store
        + (if m then taken r starts_metrics else 0)
        + (if w then taken r serves_whois else 0)
        + taken r starts_server
    → total (given_back r) es
      ≡ given_back r stops_server
        + (if m then given_back r stops_metrics else 0)
        + (if w then given_back r stops_whois else 0)
    → IsBalanced r ((es ++ closes_store ∷ []) ++ cancels ∷ [])
unfolding total
finish-IsBalanced m w r es takes gives =
    let f = taken r in
    let g = given_back r in
    let last = closes_store ∷ cancels ∷ [] in
    total-append f (es ++ closes_store ∷ []) (cancels ∷ [])
    ∙ ground (
      arith,
      total-append f es (closes_store ∷ []),
      total-append g es (closes_store ∷ []),
      takes,
      gives,
      finish-total m w r,
    )
    ∙ sym (total-append g (es ++ closes_store ∷ []) (cancels ∷ []))

with_store-total :
    (env : Env) (cfg : Config) (r : Resource)
    → (with_store env cfg).1 ≡ none
    → (total (taken r) (with_store env cfg).0
        ≡ taken r opens_store
          + (if cfg.metrics.enabled then taken r starts_metrics else 0)
          + (if cfg.whois.enabled then taken r serves_whois else 0)
          + taken r starts_server)
      × (total (given_back r) (with_store env cfg).0
          ≡ given_back r stops_server
            + (if cfg.metrics.enabled then given_back r stops_metrics else 0)
            + (if cfg.whois.enabled then given_back r stops_whois else 0))
with_store-total env cfg r h = elim (with_store-cases env cfg) [
  | inl (off, e) ↦
      let rest = (serve_until_signal env cfg).0 in
      let (takes, gives) = served-total env cfg r (served-stopped env cfg (rw e at h)) in
      let (first_takes, first_gives) = started-total cfg r in
      rw e (
        ground (arith, off, total-append (taken r) (started cfg) rest, takes, first_takes),
        ground (arith, off, total-append (given_back r) (started cfg) rest, gives, first_gives),
      )
  | inr (inl (on, e)) ↦
      let rest = (serve_until_signal env cfg).0 in
      let first = started cfg in
      let way = listens_whois ∷ serves_whois ∷ [] in
      let (takes, gives) = served-total env cfg r (served-stopped env cfg (rw e at h)) in
      let (first_takes, first_gives) = started-total cfg r in
      let (way_takes, way_gives) = way-total r in
      rw e (
        ground (
          arith,
          on,
          total-append (taken r) (first ++ way) rest,
          total-append (taken r) first way,
          takes,
          first_takes,
          way_takes,
        ),
        ground (
          arith,
          on,
          total-append (given_back r) (first ++ way) rest,
          total-append (given_back r) first way,
          gives,
          first_gives,
          way_gives,
        ),
      )
  | inr (inr (x, e)) ↦ cc (rw e at h)
]

-- A run that ends without an error gives back all that it takes: the storage backend, the metrics
-- server, the WHOIS gateway and the RDAP server.
pub run-IsBalanced : (env : Env) (r : Resource) → (run env).1 ≡ none → IsBalanced r (run env).0
unfolding run total
run-IsBalanced env r h = elim (Result-cases env.loaded) [
  | inl (e, bad) ↦ cc (rw (bad, run) at h)
  | inr (cfg, good) ↦ elim (Result-cases (env.opened cfg.storage)) [
    | inl (e, bad) ↦ cc (rw (good, bad, run) at h)
    | inr (st, opened) ↦
        let (takes, gives) = with_store-total env cfg r (rw (good, opened, run) at h) in
        rw (good, opened, run)
          (finish-IsBalanced cfg.metrics.enabled cfg.whois.enabled r (with_store env cfg).0 takes
            gives)
  ]
]
