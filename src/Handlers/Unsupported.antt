-- ===== src/Handlers/Unsupported.antt =====
-- internal/handlers/handlers.go over internal/store/postgres.go and mysql.go: the reverse search.
use go_rdap_server.Base.{
  ◌≡◌, refl, List, [], ◌∷◌, length, inl, inr, if◌then◌else◌, ◌==◌, arith, err, GoString, str, ℤ,
  Bool-cases,
}
use go_rdap_server.Config.{extensions_enabled}
use go_rdap_server.Store.Interface.{reverse_search_unsupported}
use go_rdap_server.Service.Queries
use go_rdap_server.Handlers.{Handler, Request, Platform, write_json, write_error, request_url}
use go_rdap_server.Handlers.Searches.{predicates, reverse_search, reverse_search_domains, limit_of}

-- The predicates of a reverse search that a query may have.
abbrev pub properties : List GoString
properties = str "handle" ∷ str "role" ∷ str "fn" ∷ str "email" ∷ []

module _ (p : Platform) (h : Handler)
    (unsupported : (property pattern : GoString) (limit : ℤ)
      → h.svc.store.reverse_search_domains_by_entity property pattern limit
        ≡ err reverse_search_unsupported) where
  reverse_search-status :
      (r : Request) (ps : List (GoString × GoString))
      → (reverse_search p h r ps).status ≡ (if length ps == 1 then 501 else 400)
  unfolding write_json write_error Queries.reverse_search_domains_by_entity request_url
  reverse_search-status r [] = refl
  reverse_search-status r ((property, pattern) ∷ []) = elim (Bool-cases h.svc.ext.reverse_search) [
    | inl on ↦ rw (on, unsupported property pattern (limit_of p h r), reverse_search) refl
    | inr off ↦ rw (off, reverse_search) refl
  ]
  reverse_search-status r (a ∷ b ∷ more) = ground arith

  -- Over a storage backend without reverse search, the reverse search is answered with 400 if it is
  -- enabled and the query does not have exactly one predicate, and with 501 otherwise.
  pub reverse_search_domains-unsupported :
      (r : Request)
      → (reverse_search_domains p h r).status ≡ (
          if extensions_enabled h.cfg (str "reverse_search")
          then (if length (predicates r.query properties) == 1 then 501 else 400)
          else 501)
  unfolding reverse_search_domains write_json write_error
  reverse_search_domains-unsupported r =
      elim (Bool-cases (extensions_enabled h.cfg (str "reverse_search"))) [
        | inl on ↦
            rw (on, reverse_search_domains)
              (reverse_search-status r (predicates r.query properties))
        | inr off ↦ rw (off, reverse_search_domains) refl
      ]
