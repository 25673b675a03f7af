-- ===== src/Whois/Connection.antt =====
-- internal/whois/whois.go: handle, one connection from its start to its end. The reader of the
-- socket is a parameter: the line up to and with its newline, or an error, which the deadline is
-- too. The write is not checked.
use go_rdap_server.Base.{
  ◌≡◌, refl, inl, inr, ℕ, suc, List, [], ◌∷◌, ◌++◌, if◌then◌else◌, is_empty, Result, ok, err,
  GoString, str, Unicode, trim_space, Bool-cases,
}
use go_rdap_server.Domain.{Time}
use go_rdap_server.Whois.Types.{WhoisDomain, LookupError}
use go_rdap_server.Whois.Gateway.{answer, handle}
use go_rdap_server.Whois.Render.{crlf}

pub data ConnEffect : Type 0 where
  sets_deadline : (seconds : ℕ) → ConnEffect
  logs_query : GoString → ConnEffect
  writes : GoString → ConnEffect
  closes : ConnEffect

module _ (u : Unicode) (iso : Time → GoString)
    (lookup : GoString → Result LookupError WhoisDomain) where
  -- What is done with a line whose white space is trimmed.
  abbrev pub reply : GoString → List ConnEffect
  reply line =
      if is_empty line
      then writes (str "No query received." ++ crlf) ∷ []
      else logs_query line ∷ writes (answer u iso lookup line) ∷ []

  abbrev pub replied : Result GoString GoString → List ConnEffect
  replied (err e) = []
  replied (ok line) = reply (trim_space u line)

  -- The deferred Close is last.
  unfoldable pub handle_conn : Result GoString GoString → List ConnEffect
  handle_conn line = sets_deadline 10 ∷ replied line ++ closes ∷ []

  -- The texts that are written, and how often the connection is closed.
  abbrev pub written : List ConnEffect → List GoString
  written [] = []
  written (writes text ∷ es) = text ∷ written es
  written (e ∷ es) = written es

  abbrev pub closings : List ConnEffect → ℕ
  closings [] = 0
  closings (closes ∷ es) = suc (closings es)
  closings (e ∷ es) = closings es

  -- Every connection is closed once; one whose line was read gets one answer, that of the line, and
  -- one whose line was not read gets none.
  pub handle_conn-written :
      (line : Result GoString GoString)
      → (closings (handle_conn line) ≡ 1)
        × (written (handle_conn line)
            ≡ (elim line [ err e ↦ [] | ok s ↦ handle u iso lookup s ∷ [] ]))
  unfolding handle_conn handle
  handle_conn-written (err e) = (refl, refl)
  handle_conn-written (ok s) = elim (Bool-cases (is_empty (trim_space u s))) [
    | inl none_left ↦ rw (none_left, handle_conn, handle) (refl, refl)
    | inr some_left ↦ rw (some_left, handle_conn, handle) (refl, refl)
  ]
