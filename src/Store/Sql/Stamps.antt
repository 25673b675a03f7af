-- ===== src/Store/Sql/Stamps.antt =====
-- internal/store/postgres.go and mysql.go: the same objects with the other source.
use go_rdap_server.Base.{
  ◌≡◌, refl, ap, ◌∙◌, Bool, true, false, Option, none, some, List, [], ◌∷◌, inl, inr, if◌then◌else◌,
  Result, ok, err, GoString, str, str_eq, Bool-cases,
}
use go_rdap_server.Domain.{
  Assoc, put, Metadata, Domain, DomainAggregate, Contact, contact, NameServer, Autnum,
}
use go_rdap_server.Store.Sql.{
  map_ok, put_contact, resolve_contacts, put_nameserver, resolve_nameservers, resolve, handle_set,
  new_aggregate,
}

abbrev pub from_mysql : Metadata → Metadata
from_mysql m = record m { source = str "mysql" }

-- The same objects with the other source.
abbrev pub stamp_domain : Domain → Domain
stamp_domain d = record d { metadata = from_mysql d.metadata }

abbrev pub stamp_contact : Contact → Contact
stamp_contact (contact i nested) = contact (record i { metadata = from_mysql i.metadata }) nested

abbrev pub stamp_nameserver : NameServer → NameServer
stamp_nameserver n = record n { metadata = from_mysql n.metadata }

abbrev pub stamp_autnum : Autnum → Autnum
stamp_autnum a = record a { metadata = from_mysql a.metadata }

abbrev pub map_values : {V : Type 0} → (V → V) → Assoc GoString V → Assoc GoString V
map_values f [] = []
map_values f ((k, v) ∷ m) = (k, f v) ∷ map_values f m

abbrev pub map_some : {V : Type 0} → (V → V) → Option V → Option V
map_some f none = none
map_some f (some v) = some (f v)

abbrev pub stamp_aggregate : DomainAggregate → DomainAggregate
stamp_aggregate agg = record {
  domain = stamp_domain agg.domain;
  registrar = map_some stamp_contact agg.registrar;
  contacts = map_values stamp_contact agg.contacts;
  nameservers = map_values stamp_nameserver agg.nameservers;
}

put-map_values :
    {V : Type 0} (f : V → V) (k : GoString) (v : V) (m : Assoc GoString V)
    → put k (f v) (map_values f m) ≡ map_values f (put k v m)
unfolding put
put-map_values f k v [] = refl
put-map_values f k v ((j, w) ∷ m) = elim (Bool-cases (str_eq j k)) [
  | inl same ↦ rw (same, put) refl
  | inr other ↦ rw (other, put) (ap (λ x. (j, f w) ∷ x) (put-map_values f k v m))
]

map_some-if :
    {V : Type 0} (f : V → V) (b : Bool) (v : V) (o : Option V)
    → (if b then some (f v) else map_some f o) ≡ map_some f (if b then some v else o)
map_some-if f true v o = refl
map_some-if f false v o = refl

module _ (fetch fetch' : GoString → Result GoString Contact)
    (same : (h : GoString) → fetch' h ≡ map_ok stamp_contact (fetch h)) where
  put_contact-Same :
      (k : GoString) (r : Result GoString Contact) (agg : DomainAggregate)
      → put_contact fetch' k (map_ok stamp_contact r) (stamp_aggregate agg)
        ≡ stamp_aggregate (put_contact fetch k r agg)
  put_contact-Same k (err e) agg = refl
  put_contact-Same k (ok c) agg =
      rw
        (
          put-map_values stamp_contact k c agg.contacts,
          map_some-if stamp_contact (str_eq k agg.domain.registrar) c agg.registrar,
        )
        refl

  resolve_contacts-Same :
      (m : Assoc GoString Bool) (agg : DomainAggregate)
      → resolve_contacts fetch' m (stamp_aggregate agg)
        ≡ stamp_aggregate (resolve_contacts fetch m agg)
  unfolding resolve_contacts
  resolve_contacts-Same [] agg = refl
  resolve_contacts-Same ((k, b) ∷ m) agg =
      ap (λ r. resolve_contacts fetch' m (put_contact fetch' k r (stamp_aggregate agg))) (same k)
      ∙ ap (resolve_contacts fetch' m) (put_contact-Same k (fetch k) agg)
      ∙ resolve_contacts-Same m (put_contact fetch k (fetch k) agg)

module _ (fetch fetch' : GoString → Result GoString NameServer)
    (same : (h : GoString) → fetch' h ≡ map_ok stamp_nameserver (fetch h)) where
  put_nameserver-Same :
      (r : Result GoString NameServer) (agg : DomainAggregate)
      → put_nameserver fetch' (map_ok stamp_nameserver r) (stamp_aggregate agg)
        ≡ stamp_aggregate (put_nameserver fetch r agg)
  put_nameserver-Same (err e) agg = refl
  put_nameserver-Same (ok n) agg =
      rw (put-map_values stamp_nameserver n.handle n agg.nameservers) refl

  resolve_nameservers-Same :
      (nss : List NameServer) (agg : DomainAggregate)
      → resolve_nameservers fetch' nss (stamp_aggregate agg)
        ≡ stamp_aggregate (resolve_nameservers fetch nss agg)
  unfolding resolve_nameservers
  resolve_nameservers-Same [] agg = refl
  resolve_nameservers-Same (ns ∷ more) agg =
      ap (λ r. resolve_nameservers fetch' more (put_nameserver fetch' r (stamp_aggregate agg)))
        (same ns.handle)
      ∙ ap (resolve_nameservers fetch' more) (put_nameserver-Same (fetch ns.handle) agg)
      ∙ resolve_nameservers-Same more (put_nameserver fetch (fetch ns.handle) agg)

-- A domain with the other source resolves to the aggregate with the other source.
pub resolve-Same :
    (c c' : GoString → Result GoString Contact) (n n' : GoString → Result GoString NameServer)
    → ((h : GoString) → c' h ≡ map_ok stamp_contact (c h))
    → ((h : GoString) → n' h ≡ map_ok stamp_nameserver (n h))
    → (d : Domain) → resolve c' n' (stamp_domain d) ≡ stamp_aggregate (resolve c n d)
unfolding resolve handle_set
resolve-Same c c' n n' same_c same_n d =
    ap (resolve_nameservers n' d.nameservers)
      (resolve_contacts-Same c c' same_c (handle_set d) (new_aggregate d))
    ∙ resolve_nameservers-Same n n' same_n d.nameservers
        (resolve_contacts c (handle_set d) (new_aggregate d))
