-- ===== src/Handlers/Status.antt =====
-- The status codes of the lookups.
pub mod Objects
use go_rdap_server.Base.{
  ℕ, ◌≡◌, ◌≢◌, ◌↔◌, refl, ◌<◌, ◌^◌, some, [], arith, ok, Result-cases, GoString, str_eq, str_eq_iff,
  Bool-cases, inl, inr, parse_uint32, parse_digits, decimal, ap, sym, ◌∙◌,
}
use go_rdap_server.Base.Number.Laws.{parse_uint32-decimal}
use go_rdap_server.Domain.{DomainAggregate}
use go_rdap_server.Rdap.Names.{normalize_domain_name}
use go_rdap_server.Service.Queries
use go_rdap_server.Handlers.{Handler, Request, Platform, write_json, write_error, autnum}
use go_rdap_server.Handlers.Lookups.{lookup_domain, lookup_autnum, autnum_response}

no_number : (n : ℕ) → some n ≢ parse_uint32 []
unfolding parse_uint32 parse_digits
no_number n e = cc

module _ (p : Platform) (h : Handler) (r : Request) where
  abbrev pub HasAnswer : Type 0
  HasAnswer =
      (r.param ≢ [])
      × (names : GoString × GoString) × (normalize_domain_name p.library.unicode p.idna r.param
          ≡ ok names)
      × (agg : DomainAggregate) × (h.svc.store.get_domain_aggregate names.0 ≡ ok agg)

  lookup_domain_sound : (lookup_domain p h r).status ≡ 200 → HasAnswer
  unfolding lookup_domain Queries.lookup_domain write_json write_error
  lookup_domain_sound q = elim (Bool-cases (str_eq r.param [])) [
    | inl e ↦ absurd (omega (arith, (rw (e, lookup_domain) at q)))
    | inr e ↦ elim (Result-cases (normalize_domain_name p.library.unicode p.idna r.param)) [
      | inl (x, bad) ↦ absurd (omega (arith, (rw (e, lookup_domain, bad) at q)))
      | inr (names, good) ↦ elim (Result-cases (h.svc.store.get_domain_aggregate names.0)) [
        | inl (x, missing) ↦
            absurd
              (omega (arith, (rw (e, lookup_domain, good, Queries.lookup_domain, missing) at q)))
        | inr (agg, found) ↦ (ground (arith, str_eq_iff r.param []), names, good, agg, found)
      ]
    ]
  ]

  lookup_domain_complete : HasAnswer → (lookup_domain p h r).status ≡ 200
  unfolding lookup_domain Queries.lookup_domain write_json write_error
  lookup_domain_complete (given, names, good, agg, found) = elim (Bool-cases (str_eq r.param [])) [
    | inl e ↦ absurd (given ((str_eq_iff r.param []).0 e))
    | inr e ↦ rw (e, lookup_domain, good, Queries.lookup_domain, found) refl
  ]

  -- The domain lookup answers 200 exactly if the path has a name that can be normalized and the
  -- storage backend has an aggregate of the normal form, whatever TLDs and maximum length
  -- are configured.
  pub lookup_domain-status_iff : ((lookup_domain p h r).status ≡ 200) ↔ HasAnswer
  lookup_domain-status_iff = (lookup_domain_sound, lookup_domain_complete)

  -- The decimal text of a number of 32 bits is answered with the object of that AS number.
  pub lookup_autnum-decimal :
      (n : ℕ)
      → n < 2 ^ 32
      → r.param ≡ decimal n
      → lookup_autnum p h r ≡ write_json 200 (autnum (autnum_response p h r n))
  unfolding lookup_autnum
  lookup_autnum-decimal n h e =
      let parsed = ap parse_uint32 e ∙ parse_uint32-decimal n h in
      elim (Bool-cases (str_eq r.param [])) [
        | inl nothing ↦
            absurd (no_number n (sym parsed ∙ ap parse_uint32 ((str_eq_iff r.param []).0 nothing)))
        | inr given ↦ rw (given, lookup_autnum, parsed) refl
      ]
