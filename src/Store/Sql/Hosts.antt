-- ===== src/Store/Sql/Hosts.antt =====
-- The loop of GetDomainAggregate over the nameservers of a domain, in an SQL transaction.
use go_rdap_server.Base.{
  ◌≡◌, refl, ◌&&◌, is_some, List, [], ◌∷◌, ◌∙◌, arith, if◌then◌else◌, Result, ok, err, GoString,
  str_eq, str_eq_iff,
}
use go_rdap_server.Domain.{lookup, lookup-put, DomainAggregate, NameServer}
use go_rdap_server.Store.Memory.Aggregate.{has_host}
use go_rdap_server.Store.Sql.{put_nameserver, resolve_nameservers}
use go_rdap_server.Store.Sql.Contacts.{found}

-- The rows of nameservers that a handle selects carry that handle.
abbrev pub IsKeyed : (GoString → Result GoString NameServer) → Type 0
IsKeyed fetch = (h : GoString) (n : NameServer) → fetch h ≡ ok n → n.handle ≡ h

module _ (fetch : GoString → Result GoString NameServer) where
  domain-put_nameserver :
      (r : Result GoString NameServer) (agg : DomainAggregate)
      → (put_nameserver fetch r agg).domain ≡ agg.domain
  domain-put_nameserver (err e) agg = refl
  domain-put_nameserver (ok n) agg = refl

  registrar-put_nameserver :
      (r : Result GoString NameServer) (agg : DomainAggregate)
      → (put_nameserver fetch r agg).registrar ≡ agg.registrar
  registrar-put_nameserver (err e) agg = refl
  registrar-put_nameserver (ok n) agg = refl

  contacts-put_nameserver :
      (r : Result GoString NameServer) (agg : DomainAggregate)
      → (put_nameserver fetch r agg).contacts ≡ agg.contacts
  contacts-put_nameserver (err e) agg = refl
  contacts-put_nameserver (ok n) agg = refl

  nameservers-put_nameserver :
      (h k : GoString) (r : Result GoString NameServer) (agg : DomainAggregate)
      → ((n : NameServer) → r ≡ ok n → n.handle ≡ k)
      → lookup h (put_nameserver fetch r agg).nameservers
        ≡ (if str_eq k h && is_some (found r) then found r else lookup h agg.nameservers)
  nameservers-put_nameserver h k (err e) agg keyed = ground arith
  nameservers-put_nameserver h k (ok n) agg keyed =
      ground (arith, lookup-put n.handle h n agg.nameservers, keyed n refl)

  pub domain-resolve_nameservers :
      (nss : List NameServer) (agg : DomainAggregate)
      → (resolve_nameservers fetch nss agg).domain ≡ agg.domain
  unfolding resolve_nameservers
  domain-resolve_nameservers [] agg = refl
  domain-resolve_nameservers (ns ∷ more) agg =
      domain-resolve_nameservers more (put_nameserver fetch (fetch ns.handle) agg)
      ∙ domain-put_nameserver (fetch ns.handle) agg

  pub registrar-resolve_nameservers :
      (nss : List NameServer) (agg : DomainAggregate)
      → (resolve_nameservers fetch nss agg).registrar ≡ agg.registrar
  unfolding resolve_nameservers
  registrar-resolve_nameservers [] agg = refl
  registrar-resolve_nameservers (ns ∷ more) agg =
      registrar-resolve_nameservers more (put_nameserver fetch (fetch ns.handle) agg)
      ∙ registrar-put_nameserver (fetch ns.handle) agg

  pub contacts-resolve_nameservers :
      (nss : List NameServer) (agg : DomainAggregate)
      → (resolve_nameservers fetch nss agg).contacts ≡ agg.contacts
  unfolding resolve_nameservers
  contacts-resolve_nameservers [] agg = refl
  contacts-resolve_nameservers (ns ∷ more) agg =
      contacts-resolve_nameservers more (put_nameserver fetch (fetch ns.handle) agg)
      ∙ contacts-put_nameserver (fetch ns.handle) agg

  pub nameservers-resolve_nameservers :
      (h : GoString) (nss : List NameServer) (agg : DomainAggregate)
      → IsKeyed fetch
      → lookup h (resolve_nameservers fetch nss agg).nameservers ≡ (
          if has_host h nss && is_some (found (fetch h))
          then found (fetch h)
          else lookup h agg.nameservers)
  unfolding resolve_nameservers
  nameservers-resolve_nameservers h [] agg keyed = refl
  nameservers-resolve_nameservers h (ns ∷ more) agg keyed = ground (
    arith,
    nameservers-resolve_nameservers h more (put_nameserver fetch (fetch ns.handle) agg) keyed,
    nameservers-put_nameserver h ns.handle (fetch ns.handle) agg (keyed ns.handle),
    str_eq_iff ns.handle h,
  )
