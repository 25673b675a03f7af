-- ===== src/Handlers/Searches.antt =====
-- internal/handlers/handlers.go: the searches and the reverse search.
pub mod Checks
use go_rdap_server.Base.{
  not, ◌&&◌, List, [], ◌∷◌, if◌then◌else◌, Result, ok, err, GoString, str, str_eq, ℤ,
}
use go_rdap_server.Config.{extensions_enabled}
use go_rdap_server.Store.Interface.{Error, reverse_search_unsupported, failure, error_text}
use go_rdap_server.Rdap.Models
use go_rdap_server.Rdap.Conformance.{new_conformance, with_extensions}
use go_rdap_server.Service.Queries
use go_rdap_server.Service.Queries.{reverse_search_mapping}
use go_rdap_server.Handlers.{
  Handler, Request, Platform, Body, Response, write_json, write_error, request_url, icann_notices,
  search_limit, domains, entities, nameservers,
}

unfoldable pub search_not_implemented : Request → Response
search_not_implemented r =
    write_error 501 501 (str "Search not implemented")
      (str "Search queries are disabled on this server")

-- The two patterns of a search: at most one may be given, and one has to be.
pub data Choice : Type 0 where
  ambiguous missing : Choice
  first second : GoString → Choice

unfoldable pub choose : GoString → GoString → Choice
choose a b =
    if not (str_eq a []) && not (str_eq b [])
    then ambiguous
    else if not (str_eq a [])
    then first a
    else if not (str_eq b [])
    then second b
    else missing

abbrev pub search_failed : Error → Response
search_failed e = write_error 500 500 (str "Search failed") (error_text e)

abbrev pub answer : {A : Type 0} → (A → Body) → Result Error A → Response
answer f (err e) = search_failed e
answer f (ok results) = write_json 200 (f results)

-- The predicates of a reverse search that the query has.
unfoldable pub predicates : (GoString → GoString) → List GoString → List (GoString × GoString)
predicates query [] = []
predicates query (p ∷ ps) =
    let rest = predicates query ps in if str_eq (query p) [] then rest else (p, query p) ∷ rest

module _ (p : Platform) (h : Handler) where
  abbrev pub limit_of : Request → ℤ
  limit_of r = search_limit h.cfg.max_search_limit (r.query (str "limit"))

  abbrev domain_result : Request → List Models.Domain → Body
  domain_result r results = domains (record {
    conformance = new_conformance;
    domain_search_results = results;
    notices = icann_notices p h r;
    reverse_search_properties_mapping = [];
  })

  unfoldable pub search_domains : Request → Response
  unfolding choose
  search_domains r = elim (choose (r.query (str "name")) (r.query (str "nsLdhName"))) [
    | ambiguous ↦
        write_error 400 400 (str "Ambiguous search")
          (str "Cannot specify both 'name' and 'nsLdhName' parameters")
    | missing ↦
        write_error 400 400 (str "Missing search parameter")
          (str "Either 'name' or 'nsLdhName' parameter is required")
    | first name ↦
        answer (domain_result r)
          (Queries.search_domains_by_name p.library h.svc name (limit_of r) (request_url p h r))
    | second ns ↦
        answer (domain_result r)
          (Queries.search_domains_by_ns p.library h.svc ns (limit_of r) (request_url p h r))
  ]

  abbrev entity_result : Request → List Models.Entity → Body
  entity_result r results = entities (record {
    conformance = new_conformance;
    entity_search_results = results;
    notices = icann_notices p h r;
    reverse_search_properties_mapping = [];
  })

  unfoldable pub search_entities : Request → Response
  unfolding choose
  search_entities r = elim (choose (r.query (str "fn")) (r.query (str "handle"))) [
    | ambiguous ↦
        write_error 400 400 (str "Ambiguous search")
          (str "Cannot specify both 'fn' and 'handle' parameters")
    | missing ↦
        write_error 400 400 (str "Missing search parameter")
          (str "Either 'fn' or 'handle' parameter is required")
    | first fn ↦
        answer (entity_result r) (Queries.search_entities_by_name p.library h.svc fn (limit_of r))
    | second handle ↦
        answer (entity_result r)
          (Queries.search_entities_by_handle p.library h.svc handle (limit_of r))
  ]

  abbrev nameserver_result : Request → List Models.Nameserver → Body
  nameserver_result r results = nameservers (record {
    conformance = new_conformance;
    nameserver_search_results = results;
    notices = icann_notices p h r;
    reverse_search_properties_mapping = [];
  })

  unfoldable pub search_nameservers : Request → Response
  unfolding choose
  search_nameservers r = elim (choose (r.query (str "name")) (r.query (str "ip"))) [
    | ambiguous ↦
        write_error 400 400 (str "Ambiguous search")
          (str "Cannot specify both 'name' and 'ip' parameters")
    | missing ↦
        write_error 400 400 (str "Missing search parameter")
          (str "Either 'name' or 'ip' parameter is required")
    | first name ↦
        answer (nameserver_result r)
          (Queries.search_nameservers_by_name p.library h.svc name (limit_of r))
    | second ip ↦
        answer (nameserver_result r)
          (Queries.search_nameservers_by_ip p.library h.svc ip (limit_of r))
  ]

  abbrev reverse_result : Request → GoString → List Models.Domain → Body
  reverse_result r property results = domains (record {
    conformance = with_extensions new_conformance (str "reverse_search" ∷ []);
    domain_search_results = results;
    notices = icann_notices p h r;
    reverse_search_properties_mapping = reverse_search_mapping (property ∷ []);
  })

  abbrev pub reverse_answer : Request → GoString → Result Error (List Models.Domain) → Response
  reverse_answer r property (err reverse_search_unsupported) =
      write_error 501 501 (str "Reverse search not implemented")
        (str "The storage backend does not support reverse search")
  reverse_answer r property (err (failure e)) = write_error 500 500 (str "Reverse search failed") e
  reverse_answer r property (ok results) = write_json 200 (reverse_result r property results)

  abbrev pub reverse_search : Request → List (GoString × GoString) → Response
  reverse_search r [] =
      write_error 400 400 (str "Missing search parameter")
        (str "One of 'handle', 'role', 'fn', or 'email' is required")
  reverse_search r ((property, pattern) ∷ []) = reverse_answer r property (
      Queries.reverse_search_domains_by_entity p.library h.svc property pattern (limit_of r)
        (request_url p h r))
  reverse_search r (a ∷ b ∷ more) =
      write_error 400 400 (str "Ambiguous search")
        (str "Only one reverse search property may be specified")

  unfoldable pub reverse_search_domains : Request → Response
  unfolding predicates
  reverse_search_domains r =
      if not (extensions_enabled h.cfg (str "reverse_search"))
      then write_error 501 501 (str "Reverse search not implemented")
          (str "The reverse_search extension is not enabled on this server")
      else reverse_search r
          (predicates r.query (str "handle" ∷ str "role" ∷ str "fn" ∷ str "email" ∷ []))
