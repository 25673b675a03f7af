-- ===== src/Whois/Gateway.antt =====
-- internal/whois/whois.go: the answer to a query line.
use go_rdap_server.Base.{
  ◌++◌, if◌then◌else◌, is_empty, Result, ok, err, GoString, str, Unicode, trim_space,
}
use go_rdap_server.Domain.{Time}
use go_rdap_server.Whois.Types.{WhoisDomain, LookupError, not_found, other}
use go_rdap_server.Whois.Query.{Kind, domain, unrecognized, kind_text, parse_query}
use go_rdap_server.Whois.Render.{crlf, render_domain}

module _ (u : Unicode) (iso : Time → GoString)
    (lookup : GoString → Result LookupError WhoisDomain) where
  abbrev domain_answer : Result LookupError WhoisDomain → GoString
  domain_answer (err not_found) =
      str "NOT FOUND"
      ++ crlf
      ++ crlf
      ++ str "% No entries found for the selected source(s)."
      ++ crlf
  domain_answer (err (other e)) = str "% ERROR: " ++ e ++ crlf
  domain_answer (ok d) = render_domain u iso d

  unfoldable pub unsupported_answer : Kind → GoString → GoString
  unsupported_answer kind query =
      (str "% This WHOIS gateway serves domain name lookups." ++ crlf)
      ++ (str "% Query type \""
          ++ kind_text kind
          ++ str "\" is not supported here; use the RDAP service at /rdap instead."
          ++ crlf)
      ++ (str "% e.g. GET /rdap/domain/" ++ query ++ crlf)

  unfoldable pub answer_kind : GoString → Kind → GoString
  answer_kind query domain = domain_answer (lookup query)
  answer_kind query unrecognized =
      str "INVALID QUERY" ++ crlf ++ crlf ++ str "% Unrecognized query." ++ crlf
  answer_kind query kind = unsupported_answer kind query

  unfoldable pub answer : GoString → GoString
  unfolding answer_kind
  answer line = let (query, kind) = parse_query u line in answer_kind query kind

  -- `handle`, for a line that was read: what is written to the connection.
  unfoldable pub handle : GoString → GoString
  unfolding answer
  handle line =
      if is_empty (trim_space u line)
      then str "No query received." ++ crlf
      else answer (trim_space u line)
