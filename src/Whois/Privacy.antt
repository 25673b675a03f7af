-- ===== src/Whois/Privacy.antt =====
-- What a WHOIS answer shows, and when it consults the store.
use go_rdap_server.Whois.Lookup.{contact_to_whois}
use go_rdap_server.Base.{
  ◌↔◌, str, str_eq_iff, Option-cases, ◌⊎◌, ◌≡◌, ◌≢◌, arith, refl, true, List, [], ◌∷◌, Result,
  GoString, Unicode, trim_space, is_empty, Bool-cases, inl, inr,
}
use go_rdap_server.Domain.{Time, Contact, info}
use go_rdap_server.Whois.Types.{WhoisContact, WhoisDomain, LookupError}
use go_rdap_server.Whois.Query.{
  Kind, domain, nameserver, entity, ip, autnum, unrecognized, parse_query,
}
use go_rdap_server.Whois.Render.{contact_fields, contact_block, contact_blocks}
use go_rdap_server.Whois.Gateway.{unsupported_answer, answer_kind, answer, handle}

-- The same contacts as far as a reader may see: withheld contacts of one role, or equal ones.
abbrev pub Alike : List WhoisContact → List WhoisContact → Type 0
Alike [] [] = Unit
Alike [] (d ∷ ds) = ⊥
Alike (c ∷ cs) [] = ⊥
Alike (c ∷ cs) (d ∷ ds) =
    (c.role ≡ d.role) × (c.redacted ≡ d.redacted) × ((c.redacted ≡ true) ⊎ (c ≡ d)) × Alike cs ds

module _ (u : Unicode) where
  block_redacted :
      (c d : WhoisContact)
      → c.role ≡ d.role
      → c.redacted ≡ true
      → d.redacted ≡ true
      → contact_block u c ≡ contact_block u d
  unfolding contact_block contact_fields
  block_redacted c d r hc hd = rw (hc, hd, r) refl

  -- The contact blocks of an answer do not depend on the name, organization, address, email or
  -- telephone number of a contact that is redacted.
  pub contact_blocks-redacted :
      (cs ds : List WhoisContact) → Alike cs ds → contact_blocks u cs ≡ contact_blocks u ds
  unfolding contact_blocks
  contact_blocks-redacted [] [] h = refl
  contact_blocks-redacted [] (d ∷ ds) h = absurd h
  contact_blocks-redacted (c ∷ cs) [] h = absurd h
  contact_blocks-redacted (c ∷ cs) (d ∷ ds) (role, same, inl hidden, more) =
      cc (block_redacted c d role hidden (cc (hidden, same)), contact_blocks-redacted cs ds more)
  contact_blocks-redacted (c ∷ cs) (d ∷ ds) (role, same, inr e, more) =
      cc (e, contact_blocks-redacted cs ds more)

  module _ (iso : Time → GoString) where
    answer_kind-constant :
        (f g : GoString → Result LookupError WhoisDomain) (query : GoString) (kind : Kind)
        → kind ≢ domain
        → answer_kind u iso f query kind ≡ answer_kind u iso g query kind
    unfolding answer_kind unsupported_answer
    answer_kind-constant f g query domain h = absurd (h refl)
    answer_kind-constant f g query nameserver h = refl
    answer_kind-constant f g query entity h = refl
    answer_kind-constant f g query ip h = refl
    answer_kind-constant f g query autnum h = refl
    answer_kind-constant f g query unrecognized h = refl

    -- A line that is not parsed as a domain query gets an answer that does not depend on the
    -- registry data.
    pub handle-no_lookup :
        (f g : GoString → Result LookupError WhoisDomain) (line : GoString)
        → (parse_query u (trim_space u line)).1 ≢ domain
        → handle u iso f line ≡ handle u iso g line
    unfolding handle answer
    handle-no_lookup f g line h = elim (Bool-cases (is_empty (trim_space u line))) [
      | inl e ↦ rw e refl
      | inr e ↦ rw e (
          answer_kind-constant f g (parse_query u (trim_space u line)).0
            (parse_query u (trim_space u line)).1 h)
    ]

-- A contact is redacted exactly if its privacy is set to something other than "public", whether or
-- not it has a card.
pub contact_to_whois-redacted_iff :
    (role : GoString) (c : Contact)
    → ((contact_to_whois role c).redacted ≡ true)
      ↔ (((info c).privacy ≢ []) × ((info c).privacy ≢ str "public"))
unfolding contact_to_whois
contact_to_whois-redacted_iff role c =
    let empty = str_eq_iff (info c).privacy [] in
    let public = str_eq_iff (info c).privacy (str "public") in
    elim (Option-cases (info c).vcard) [
      | inl e ↦ rw e (
        λ h. (λ q. ground (arith, h, empty.1 q), λ q. ground (arith, h, public.1 q)),
        λ h. ground (arith, h, empty, public),
      )
      | inr (v, e) ↦ rw e (
        λ h. (λ q. ground (arith, h, empty.1 q), λ q. ground (arith, h, public.1 q)),
        λ h. ground (arith, h, empty, public),
      )
    ]
