-- ===== src/Metrics.antt =====
-- internal/metrics/metrics.go: the collectors and their registration at the start of the program.
-- The registry of prometheus is a parameter; so are its buckets for histograms.
pub mod Registered
use go_rdap_server.Base.{ℕ, Option, none, some, List, [], ◌∷◌, GoString, str}

pub data Kind : Type 0 where
  counter gauge : Kind
  counter_vec histogram_vec : List GoString → Kind

pub record Collector : Type 0 where
  pub kind : Kind
  pub name : GoString
  pub help : GoString

abbrev pub http_requests_total : Collector
http_requests_total = record {
  kind = counter_vec (str "method" ∷ str "path" ∷ str "status" ∷ []);
  name = str "rdap_http_requests_total";
  help = str "Total number of HTTP requests";
}

abbrev pub http_request_duration : Collector
http_request_duration = record {
  kind = histogram_vec (str "method" ∷ str "path" ∷ []);
  name = str "rdap_http_request_duration_seconds";
  help = str "HTTP request duration in seconds";
}

abbrev pub active_connections : Collector
active_connections = record {
  kind = gauge;
  name = str "rdap_active_connections";
  help = str "Current number of active connections";
}

abbrev pub rate_limit_hits : Collector
rate_limit_hits = record {
  kind = counter;
  name = str "rdap_rate_limit_hits_total";
  help = str "Total number of rate limit hits";
}

abbrev pub domain_lookups : Collector
domain_lookups = record {
  kind = counter_vec (str "tld" ∷ str "found" ∷ []);
  name = str "rdap_domain_lookups_total";
  help = str "Total number of domain lookups";
}

abbrev pub entity_lookups : Collector
entity_lookups = record {
  kind = counter;
  name = str "rdap_entity_lookups_total";
  help = str "Total number of entity lookups";
}

abbrev pub search_queries : Collector
search_queries = record {
  kind = counter_vec (str "type" ∷ []);
  name = str "rdap_search_queries_total";
  help = str "Total number of search queries";
}

abbrev pub storage_errors : Collector
storage_errors = record {
  kind = counter_vec (str "operation" ∷ []);
  name = str "rdap_storage_errors_total";
  help = str "Total number of storage errors";
}

abbrev pub up : Collector
up = record {
  kind = gauge;
  name = str "rdap_up";
  help = str "1 if the RDAP server is up, 0 otherwise";
}

-- The order of the registration.
abbrev pub collectors : List Collector
collectors =
    http_requests_total ∷ http_request_duration ∷ active_connections ∷ rate_limit_hits
    ∷ domain_lookups ∷ entity_lookups ∷ search_queries ∷ storage_errors ∷ up ∷ []

module _ {R : Type 0} (register : Collector → R → Option R) where
  -- MustRegister for each in turn; `none` is its panic.
  unfoldable pub must_register : List Collector → R → Option R
  must_register [] r = some r
  must_register (c ∷ cs) r = elim (register c r) [ none ↦ none | some s ↦ must_register cs s ]

  -- init: the registry afterwards, and the value of `up`.
  unfoldable pub init : R → Option (R × ℕ)
  unfolding must_register
  init r = elim (must_register collectors r) [ none ↦ none | some s ↦ some (s, 1) ]
