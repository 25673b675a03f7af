-- ===== src/Middleware/Recorder.antt =====
-- internal/middleware/middleware.go: the response writer that keeps the status for the log, the
-- headers that every answer gets, and the request id. The inner writer (net/http) is a parameter.
pub mod Logged
use go_rdap_server.Base.{ℕ, Option, none, some, List, [], ◌∷◌, GoString, str}
use go_rdap_server.Domain.{Assoc, put}

-- http.ResponseWriter: its headers, WriteHeader and Write.
pub record WriterOps (W : Type 0) : Type 0 where
  pub write_header : ℕ → W → W
  pub write : GoString → W → W
  pub set_header : GoString → GoString → W → W

pub record ResponseWriter (W : Type 0) : Type 0 where
  pub inner : W
  pub status_code : ℕ

-- What a handler does to the writer that it is given.
pub data Action : Type 0 where
  writes_header : ℕ → Action
  writes : GoString → Action

module _ {W : Type 0} (ops : WriterOps W) where
  unfoldable pub write_header : ℕ → ResponseWriter W → ResponseWriter W
  write_header code rw = record rw { status_code = code; inner = ops.write_header code rw.inner }

  -- Write is that of the embedded writer.
  abbrev pub act : Action → ResponseWriter W → ResponseWriter W
  act (writes_header code) w = write_header code w
  act (writes body) w = record w { inner = ops.write body w.inner }

  unfoldable pub serve_http : List Action → ResponseWriter W → ResponseWriter W
  unfolding write_header
  serve_http [] w = w
  serve_http (a ∷ as') w = serve_http as' (act a w)

  -- The inner writer afterwards, and the status that is logged.
  unfoldable pub logger : List Action → W → W × ℕ
  unfolding serve_http
  logger next w =
      let ww = serve_http next (record { inner = w; status_code = 200 }) in
      (ww.inner, ww.status_code)

  -- The wrapped writer is not read afterwards.
  unfoldable pub metrics : List Action → W → W
  unfolding serve_http
  metrics next w = (serve_http next (record { inner = w; status_code = 200 })).inner

  unfoldable pub rdap_content_type : W → W
  rdap_content_type = ops.set_header (str "Content-Type") (str "application/rdap+json")

  abbrev pub set_all : Assoc GoString GoString → W → W
  set_all [] w = w
  set_all ((k, v) ∷ more) w = set_all more (ops.set_header k v w)

  unfoldable pub security_headers : W → W
  security_headers = set_all (
      (str "Access-Control-Allow-Origin", str "*")
      ∷ (str "Access-Control-Allow-Methods", str "GET, HEAD, OPTIONS")
      ∷ (str "Access-Control-Allow-Headers", str "Accept, Content-Type, Authorization")
      ∷ (str "Access-Control-Max-Age", str "86400")
      ∷ (str "X-Content-Type-Options", str "nosniff")
      ∷ (str "X-Frame-Options", str "DENY")
      ∷ (str "X-XSS-Protection", str "1; mode=block")
      ∷ (str "Referrer-Policy", str "no-referrer")
      ∷ (str "Strict-Transport-Security", str "max-age=31536000; includeSubDomains")
      ∷ [])

-- The value of the context under the key, if it is a string.
unfoldable pub get_request_id : Option GoString → GoString
get_request_id none = []
get_request_id (some id) = id
