-- ===== src/Lib.antt =====
-- Verification of the RDAP server, which answers queries about registered domains, contacts,
-- nameservers, networks and AS numbers over HTTP (RFC 7480 and its companions) and, for domains,
-- over WHOIS (RFC 3912).
--
-- A request passes the middleware chain, reaches a handler by its route, which asks the query
-- service, which reads the storage backend through its interface and maps registry objects to RDAP
-- objects. The WHOIS gateway reads the same interface.
--
-- The files, and the source that they model:
-- - Base: byte strings, integers, results and the functions of the packages strings and strconv
--   that the source calls. Text outside ASCII goes to `Unicode`, a parameter.
-- - Domain: internal/domain/models.go and vcard.go, and Go maps as association lists.
-- - Rdap/Models, Responses: internal/rdap/models.go. Rdap/Names, Conformance, Notices:
--   internal/rdap/rdap.go.
-- - Store/Interface: internal/store/store.go. Store/Memory and its children:
--   internal/store/memory.go, with Search for the searches, Seed for the sample data and Adapter for
--   the store as an implementation of the interface. Store/Rows: internal/store/mapping.go.
-- - Store/Sql: what internal/store/postgres.go and mysql.go share, with Postgres and MySql for the
--   methods of the stores (and Backend for the stores as implementations of the interface), IpRange
--   for ipRange, Dsn for normalizeMySQLDSN and Connect for the constructors. Contacts, Hosts and
--   Resolved are about the loops of an aggregate, Limits about the bounds of the searches,
--   Exact about when they give results.
-- - Config: internal/config/config.go.
-- - Service: internal/service/service.go and extensions.go, with JCard for vcardToJCard, Mapping
--   for the functions to RDAP objects and Queries for the methods of Service.
-- - Handlers: internal/handlers/handlers.go and response.go, with Lookups, Searches and Routes.
-- - Middleware/ClientIp: internal/middleware/clientip.go. Middleware/Bearer:
--   internal/middleware/auth.go. Middleware/Recorder: internal/middleware/middleware.go.
-- - Auth/Keys, Tokens, Context: internal/auth/auth.go. Auth/Keys/Concurrent: calls of keyfunc at the
--   same time, as turns on the shared key set.
-- - Whois: internal/whois/whois.go, store.go and render.go, with Lifecycle for the server from
--   Listen to Shutdown: its state, and in Steps the turns that its loop, its goroutine and its
--   callers take in any order, and Connection for handle as the list of its effects.
-- - Server: what the chain of internal/server/server.go decides about a request. Server/Chain: the
--   same chain, as the middleware that New registers in its order. Server/Http: its health check and
--   settings, and the server of internal/metrics/metrics.go. Metrics: the collectors of that file and
--   their registration.
-- - Program: run of cmd/rdapd/main.go, as the list of its effects.
-- - Tests: the theorems at concrete inputs.
--
-- How code becomes definitions. A function of Go is a function of the same name, in snake case. A
-- pointer that may be nil is an Option, a pair of value and error a Result, a map an association
-- list in the order in which a loop happens to visit it, int an integer without wrap-around (strconv
-- refuses what does not fit). Methods of the memory store read its maps under a lock and do not
-- write them, so the store is an argument. The key set of the authenticator is state that is passed
-- in and out. Loops are recursion on their list. The only fuel is that of `decimal`, one more than
-- the number, which is enough since each round divides it by ten.
--
-- Parameters stand for packages that the source calls: net, netip and url, net/http's writer, the
-- registry of prometheus, the database drivers with their answers to each statement, encoding/json,
-- time formats, regexp, IDNA, base64, the JWT library, the rate limiter, YAML and the reading of
-- files. A transaction's reads are those of one state of the database.
--
-- Not modelled: CORS, which answers preflight requests itself, the SQL of the statements, the
-- encoding of JSON text, the lines of the log, compression, time limits, what the deadlines of
-- WHOIS connections do, the goroutines of the HTTP servers, flags and signals.
pub mod Auth
pub mod Base
pub mod Config
pub mod Domain
pub mod Handlers
pub mod Metrics
pub mod Middleware
pub mod Program
pub mod Rdap
pub mod Server
pub mod Service
pub mod Store
pub mod Tests
pub mod Whois
