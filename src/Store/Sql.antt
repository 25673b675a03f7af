-- ===== src/Store/Sql.antt =====
-- What internal/store/postgres.go and mysql.go share: the columns of their rows, the statements
-- that they send, the loop over the rows of a search, and the assembly of an aggregate. The drivers
-- and encoding/json are parameters: `Reads` answers the SELECT statements in one state of the
-- database, and `Decoder` says what json.Unmarshal leaves in its target. Errors of a driver are
-- their texts.
pub mod Postgres
pub mod IpRange
pub mod Contacts
pub mod Hosts
pub mod Resolved
pub mod Roles
pub mod Snapshot
pub mod Searches
pub mod Exact
pub mod Stamps
pub mod Agreement
pub mod Limits
pub mod Patterns
pub mod MySql
pub mod Dsn
pub mod Connect
use go_rdap_server.Base.{
  ℕ, Bool, true, Option, none, some, List, [], ◌∷◌, ◌++◌, if◌then◌else◌, is_empty, Result, ok, err,
  ◌>>=◌, GoString, str, str_eq, replace_all, ℤ, pos,
}
use go_rdap_server.Domain.{
  Assoc, put, Time, PublicId, Metadata, NameServer, Domain, DomainAggregate, Contact,
}
use go_rdap_server.Rdap.Models.{Json}
use go_rdap_server.Store.Interface.{Error, failure}
use go_rdap_server.Store.Rows.{NsJson, SecureDnsJson, parse_vcard, empty_vcard}

-- handle, ldh_name, unicode_name, tld, status, created_at, updated_at, expires_at, registrant,
-- admin, tech, billing, nameservers, secure_dns
pub record DomainRow : Type 0 where
  pub handle : GoString
  pub ldh_name : GoString
  pub unicode_name : GoString
  pub tld : GoString
  pub status : GoString
  pub created : Time
  pub updated : Time
  pub expires : Time
  pub registrant : Option GoString
  pub admin : Option GoString
  pub tech : Option GoString
  pub billing : Option GoString
  pub nameservers : GoString
  pub secure_dns : GoString

-- handle, vcard_json, roles, status, created_at, updated_at, public_ids
pub record ContactRow : Type 0 where
  pub handle : GoString
  pub vcard : Option GoString
  pub roles : GoString
  pub status : GoString
  pub created : Time
  pub updated : Time
  pub public_ids : GoString

-- handle, ldh_name, unicode_name, ipv4, ipv6, status, created_at, updated_at
pub record NameserverRow : Type 0 where
  pub handle : GoString
  pub ldh_name : GoString
  pub unicode_name : GoString
  pub ipv4 : GoString
  pub ipv6 : GoString
  pub status : GoString
  pub created : Time
  pub updated : Time

-- handle, start_address, end_address, ip_version, cidr, name, type, country, status, created_at,
-- updated_at; the column of prefixes is an array in PostgreSQL and JSON text in MySQL.
pub record NetworkRow (C : Type 0) : Type 0 where
  pub handle : GoString
  pub start_address : GoString
  pub end_address : GoString
  pub ip_version : GoString
  pub cidr : C
  pub name : GoString
  pub kind : GoString
  pub country : GoString
  pub status : GoString
  pub created : Time
  pub updated : Time

-- handle, start_asn, end_asn, name, type, country, status, created_at, updated_at
pub record AutnumRow : Type 0 where
  pub handle : GoString
  pub start_asn : ℕ
  pub end_asn : ℕ
  pub name : GoString
  pub kind : GoString
  pub country : GoString
  pub status : GoString
  pub created : Time
  pub updated : Time

-- json.Unmarshal into a []string, into records, into a []any: `none` is an error. Where the source
-- drops the error, the field is what the call leaves in a slice that was nil.
pub record Decoder : Type 0 where
  pub statuses : GoString → Option (List GoString)
  pub nameservers : GoString → Option (List NsJson)
  pub secure_dns : GoString → Option SecureDnsJson
  pub card : GoString → Option (List Json)
  pub strings : GoString → List GoString
  pub public_ids : GoString → List PublicId

-- The rows of a search as the cursor gives them: for each that Next announces what Scan answers,
-- and the error that ended the loop, if one did.
pub record Cursor (R : Type 0) : Type 0 where
  pub rows : List (Result GoString R)
  pub last : Option GoString

-- QueryRow(...).Scan(...) and Query(...) for the statements that both stores have, by argument:
-- a domain and a nameserver by name, an entity and a nameserver by handle, an autnum by number,
-- then the searches with their limits. Each store has its own instance: PostgreSQL searches entities
-- by ILIKE and addresses by `@>`, MySQL by LIKE and JSON_CONTAINS, so the answers of the two to one
-- search may differ, in the case of letters for instance.
pub record Reads : Type 0 where
  pub domain_row : GoString → Result GoString DomainRow
  pub entity_row : GoString → Result GoString ContactRow
  pub nameserver_row : GoString → Result GoString NameserverRow
  pub host_row : GoString → Result GoString NameserverRow
  pub autnum_row : ℤ → Result GoString AutnumRow
  pub domains_like : GoString → ℤ → Result GoString (Cursor DomainRow)
  pub domains_of_host : GoString → ℤ → Result GoString (Cursor DomainRow)
  pub entities_like : GoString → ℤ → Result GoString (Cursor ContactRow)
  pub entity_handles_like : GoString → ℤ → Result GoString (Cursor ContactRow)
  pub hosts_like : GoString → ℤ → Result GoString (Cursor NameserverRow)
  pub hosts_with_address : GoString → ℤ → Result GoString (Cursor NameserverRow)

-- A transaction: its reads all see one state of the database.
pub record Session : Type 0 where
  pub reads : Reads
  pub commit : Option GoString

-- fmt.Errorf("prefix: %w", err) for an error, the value otherwise
abbrev pub labelled : {A : Type 0} → GoString → Result GoString A → Result GoString A
labelled prefix (ok a) = ok a
labelled prefix (err e) = err (prefix ++ e)

abbrev pub as_error : {A : Type 0} → Result GoString A → Result Error A
as_error (ok a) = ok a
as_error (err e) = err (failure e)

-- A function of the value of a step that cannot fail after it.
abbrev pub map_ok : {E A B : Type 0} → (A → B) → Result E A → Result E B
map_ok f (ok a) = ok (f a)
map_ok f (err e) = err e

abbrev pub row_metadata : GoString → Time → Time → Metadata
row_metadata source created updated = record {
  version = pos 1;
  created_at = created;
  updated_at = updated;
  updated_by = [];
  source = source;
  history = [];
  audit = [];
}

abbrev pub one_contact :
    GoString → Option GoString → Assoc GoString (List GoString) → Assoc GoString (List GoString)
one_contact role none contacts = contacts
one_contact role (some handle) contacts = put role (handle ∷ []) contacts

abbrev pub text_or_empty : Option GoString → GoString
text_or_empty none = []
text_or_empty (some s) = s

-- The contacts and the registrar of a domain that has neither yet.
unfoldable pub populate_domain_contacts :
    Option GoString → Option GoString → Option GoString → Option GoString → Domain → Domain
populate_domain_contacts registrant admin tech billing d = record d {
  contacts = one_contact (str "billing") billing (
      one_contact (str "technical") tech
        (one_contact (str "administrative") admin (one_contact (str "registrant") registrant [])));
  registrar = text_or_empty registrant;
}

-- strings.ReplaceAll twice
unfoldable pub pattern_to_sql : GoString → GoString
pattern_to_sql pattern = replace_all b'?' (str "_") (replace_all b'*' (str "%") pattern)

-- for rows.Next() { ... }; return results, rows.Err(). A caller that gets an error reads no results.
unfoldable pub scan_rows :
    {R A : Type 0}
    → (Result GoString R → Result GoString A)
    → List (Result GoString R)
    → Option GoString
    → Result GoString (List A)
scan_rows scan [] none = ok []
scan_rows scan [] (some e) = err e
scan_rows scan (r ∷ rows) last =
    scan r >>= λ a. map_ok (λ results. a ∷ results) (scan_rows scan rows last)

-- The set of handles of an aggregate, as the map that the source fills.
unfoldable pub add_handles : List GoString → Assoc GoString Bool → Assoc GoString Bool
add_handles [] handles = handles
add_handles (h ∷ hs) handles = add_handles hs (put h true handles)

unfoldable pub add_role_handles :
    Assoc GoString (List GoString) → Assoc GoString Bool → Assoc GoString Bool
unfolding add_handles
add_role_handles [] handles = handles
add_role_handles ((role, hs) ∷ more) handles = add_role_handles more (add_handles hs handles)

unfoldable pub handle_set : Domain → Assoc GoString Bool
unfolding add_role_handles
handle_set d =
    add_role_handles d.contacts (if is_empty d.registrar then [] else put d.registrar true [])

module _ (fetch : GoString → Result GoString Contact) where
  -- One round of the loop over the handles.
  abbrev pub put_contact : GoString → Result GoString Contact → DomainAggregate → DomainAggregate
  put_contact h (err e) agg = agg
  put_contact h (ok c) agg = record agg {
    contacts = put h c agg.contacts;
    registrar = if str_eq h agg.domain.registrar then some c else agg.registrar;
  }

  unfoldable pub resolve_contacts : Assoc GoString Bool → DomainAggregate → DomainAggregate
  resolve_contacts [] agg = agg
  resolve_contacts ((h, b) ∷ more) agg = resolve_contacts more (put_contact h (fetch h) agg)

module _ (fetch : GoString → Result GoString NameServer) where
  -- The nameserver is stored under the handle of its own row.
  abbrev pub put_nameserver : Result GoString NameServer → DomainAggregate → DomainAggregate
  put_nameserver (err e) agg = agg
  put_nameserver (ok n) agg = record agg { nameservers = put n.handle n agg.nameservers }

  unfoldable pub resolve_nameservers : List NameServer → DomainAggregate → DomainAggregate
  resolve_nameservers [] agg = agg
  resolve_nameservers (ns ∷ more) agg =
      resolve_nameservers more (put_nameserver (fetch ns.handle) agg)

abbrev pub new_aggregate : Domain → DomainAggregate
new_aggregate d = record { domain = d; registrar = none; contacts = []; nameservers = [] }

unfoldable pub resolve :
    (GoString → Result GoString Contact)
    → (GoString → Result GoString NameServer)
    → Domain
    → DomainAggregate
unfolding resolve_contacts resolve_nameservers handle_set
resolve contact_of nameserver_of d =
    resolve_nameservers nameserver_of d.nameservers
      (resolve_contacts contact_of (handle_set d) (new_aggregate d))

-- if err := tx.Commit(ctx); err != nil { ... }
abbrev pub committed : {A : Type 0} → Option GoString → A → Result GoString A
committed none a = ok a
committed (some e) a = err (str "commit transaction: " ++ e)
