-- ===== src/Service/Mapping/Modes.antt =====
-- What the mode of the server and the aggregate choose in a domain object.
use go_rdap_server.Base.{
  ◌≡◌, ◌↔◌, inl, inr, refl, Bool, Option, List, [], ◌∷◌, In, arith, Bool-cases, GoString, str,
  str_eq, str_eq_iff, map, if◌then◌else◌,
}
use go_rdap_server.Domain.{Time, DomainAggregate, Contact, info}
use go_rdap_server.Domain
use go_rdap_server.Rdap.Models.{Event, entity, Entities, nil, cons}
use go_rdap_server.Service.Mapping.{
  domain_events, registrar_entity, registrant_entity, domain_entities, is_registrar_mode,
}

-- The roles of the entities, in their order.
abbrev pub roles_of : Entities → List (List GoString)
roles_of nil = []
roles_of (cons (entity c i n) more) = i.roles ∷ roles_of more

abbrev pub actions_of : List Event → List GoString
actions_of = map (λ e. e.event_action)

abbrev pub roles_for : Bool → List (List GoString)
roles_for registrar =
    (str "registrar" ∷ []) ∷ (if registrar then (str "registrant" ∷ []) ∷ [] else [])

-- The entities of a domain object are the registrar's, and in registrar mode also the registrant's;
-- its events are the four of a registry, and in registrar mode also "registrar expiration".
pub domain_to_rdap-mode :
    (rfc3339 : Time → GoString) (d : Domain.Domain) (agg : Option DomainAggregate)
    (registrar_base_url mode : GoString)
    → (roles_of (domain_entities d agg registrar_base_url mode)
        ≡ roles_for (is_registrar_mode mode))
      × (In (str "registrar expiration") (actions_of (domain_events rfc3339 d mode))
          ↔ (mode ≡ str "registrar"))
unfolding domain_entities domain_events registrar_entity registrant_entity
domain_to_rdap-mode rfc3339 d agg registrar_base_url mode =
    elim (Bool-cases (str_eq mode (str "registrar"))) [
      | inl e ↦ rw e (
        refl,
        (λ h. (str_eq_iff mode (str "registrar")).0 e, λ h. inr (inr (inr (inr (inl refl))))),
      )
      | inr e ↦ rw e (
        refl,
        (λ h. ground (arith, h), λ h. ground (arith, str_eq_iff mode (str "registrar"), h)),
      )
    ]
