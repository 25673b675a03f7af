-- ===== src/Store/Sql/Resolved.antt =====
-- What the loops of GetDomainAggregate over an SQL transaction leave in the aggregate.
use go_rdap_server.Base.{◌≡◌, ◌∙◌, arith, Result, GoString, Option-cases}
use go_rdap_server.Domain.{lookup, Domain, DomainAggregate, Contact, NameServer}
use go_rdap_server.Store.Memory.Aggregate.{has_host, only_if}
use go_rdap_server.Store.Sql.{handle_set, resolve_contacts, resolve, new_aggregate}
use go_rdap_server.Store.Sql.Contacts.{
  found, is_referred, visited-handle_set, domain-resolve_contacts, nameservers-resolve_contacts,
  contacts-resolve_contacts, registrar-resolve_contacts,
}
use go_rdap_server.Store.Sql.Hosts.{
  IsKeyed, domain-resolve_nameservers, registrar-resolve_nameservers, contacts-resolve_nameservers,
  nameservers-resolve_nameservers,
}

-- An aggregate has exactly the contacts and the nameservers that its domain refers to, each as the
-- transaction reads it, and the registrar is that contact.
pub record IsResolved (contact_of : GoString → Result GoString Contact)
    (nameserver_of : GoString → Result GoString NameServer) (agg : DomainAggregate) : Type 0 where
  pub registrar :
      agg.registrar
      ≡ only_if
          (is_referred agg.domain agg.domain.registrar)
          (found (contact_of agg.domain.registrar))
  pub contacts :
      (h : GoString)
      → lookup h agg.contacts ≡ only_if (is_referred agg.domain h) (found (contact_of h))
  pub nameservers :
      (h : GoString)
      → lookup h agg.nameservers
        ≡ only_if (has_host h agg.domain.nameservers) (found (nameserver_of h))

module _ (contact_of : GoString → Result GoString Contact)
    (nameserver_of : GoString → Result GoString NameServer) where
  -- The domain of what the loops leave is the one that they began with.
  pub resolve-domain : (d : Domain) → (resolve contact_of nameserver_of d).domain ≡ d
  unfolding resolve
  resolve-domain d =
      domain-resolve_nameservers nameserver_of d.nameservers
        (resolve_contacts contact_of (handle_set d) (new_aggregate d))
      ∙ domain-resolve_contacts contact_of (handle_set d) (new_aggregate d)

  resolve-contacts :
      (d : Domain) (h : GoString)
      → lookup h (resolve contact_of nameserver_of d).contacts
        ≡ only_if (is_referred d h) (found (contact_of h))
  unfolding resolve lookup
  resolve-contacts d h = ground (
    arith,
    contacts-resolve_nameservers nameserver_of d.nameservers
        (resolve_contacts contact_of (handle_set d) (new_aggregate d)),
    contacts-resolve_contacts contact_of h (handle_set d) (new_aggregate d),
    visited-handle_set h d,
    Option-cases (found (contact_of h)),
  )

  resolve-registrar :
      (d : Domain)
      → (resolve contact_of nameserver_of d).registrar
        ≡ only_if (is_referred d d.registrar) (found (contact_of d.registrar))
  unfolding resolve
  resolve-registrar d = ground (
    arith,
    registrar-resolve_nameservers nameserver_of d.nameservers
        (resolve_contacts contact_of (handle_set d) (new_aggregate d)),
    registrar-resolve_contacts contact_of (handle_set d) (new_aggregate d),
    visited-handle_set d.registrar d,
    Option-cases (found (contact_of d.registrar)),
  )

  resolve-nameservers :
      (d : Domain) (h : GoString)
      → IsKeyed nameserver_of
      → lookup h (resolve contact_of nameserver_of d).nameservers
        ≡ only_if (has_host h d.nameservers) (found (nameserver_of h))
  unfolding resolve lookup
  resolve-nameservers d h keyed = ground (
    arith,
    nameservers-resolve_nameservers nameserver_of h d.nameservers
        (resolve_contacts contact_of (handle_set d) (new_aggregate d)) keyed,
    nameservers-resolve_contacts contact_of (handle_set d) (new_aggregate d),
    Option-cases (found (nameserver_of h)),
  )

  -- The loops resolve a domain.
  pub resolve-IsResolved :
      (d : Domain)
      → IsKeyed nameserver_of
      → IsResolved contact_of nameserver_of (resolve contact_of nameserver_of d)
  resolve-IsResolved d keyed = record {
    registrar = rw (resolve-domain d) (resolve-registrar d);
    contacts = λ h. rw (resolve-domain d) (resolve-contacts d h);
    nameservers = λ h. rw (resolve-domain d) (resolve-nameservers d h keyed);
  }
