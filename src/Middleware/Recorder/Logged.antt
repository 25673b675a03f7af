-- ===== src/Middleware/Recorder/Logged.antt =====
-- internal/middleware/middleware.go: the logged status and the status that is sent.
use go_rdap_server.Base.{◌≡◌, refl, ap, ℕ, Bool, true, false, not, List, [], ◌∷◌, arith}
use go_rdap_server.Middleware.Recorder.{
  WriterOps, ResponseWriter, Action, writes_header, writes, write_header, act, serve_http, logger,
  metrics,
}

-- The status that net/http documents: that of the first WriteHeader, unless a body is written
-- before it or none is made, which sends 200.
unfoldable pub sent : List Action → ℕ
sent [] = 200
sent (writes_header code ∷ rest) = code
sent (writes body ∷ rest) = 200

abbrev pub has_header : List Action → Bool
has_header [] = false
has_header (writes_header code ∷ rest) = true
has_header (writes body ∷ rest) = has_header rest

-- The status is written at most once, and not behind a part of the body.
abbrev pub is_orderly : List Action → Bool
is_orderly (writes_header code ∷ rest) = not (has_header rest)
is_orderly rest = not (has_header rest)

module _ {W : Type 0} (ops : WriterOps W) where
  kept :
      (rest : List Action) (w : ResponseWriter W)
      → has_header rest ≡ false
      → (serve_http ops rest w).status_code ≡ w.status_code
  unfolding serve_http
  kept [] w h = refl
  kept (writes_header code ∷ rest) w h = cc h
  kept (writes body ∷ rest) w h = kept rest (act ops (writes body) w) h

  through :
      (next : List Action) (w : ResponseWriter W) (v : ResponseWriter W)
      → w.inner ≡ v.inner
      → (serve_http ops next w).inner ≡ (serve_http ops next v).inner
  unfolding serve_http write_header
  through [] w v e = e
  through (writes_header code ∷ rest) w v e =
      through rest (act ops (writes_header code) w) (act ops (writes_header code) v)
        (ap (ops.write_header code) e)
  through (writes body ∷ rest) w v e =
      through rest (act ops (writes body) w) (act ops (writes body) v) (ap (ops.write body) e)

  -- The log has the status that was sent, for a handler that writes the status at most once and
  -- before the body; the writers of the log and of the metrics pass all that the handler does on.
  pub logger-sent :
      (next : List Action) (w : W)
      → is_orderly next ≡ true
      → ((logger ops next w).1 ≡ sent next) × ((logger ops next w).0 ≡ metrics ops next w)
  unfolding logger metrics sent serve_http write_header
  logger-sent [] w h = (refl, refl)
  logger-sent (writes_header code ∷ rest) w h = (kept rest _ (ground (arith, h)), refl)
  logger-sent (writes body ∷ rest) w h = (kept rest _ (ground (arith, h)), refl)
