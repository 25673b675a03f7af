-- ===== src/Handlers/Searches/Checks.antt =====
-- When a search is refused as a bad request.
use go_rdap_server.Base.{
  ◌≡◌, ◌≢◌, ◌↔◌, ◌⊎◌, inl, inr, refl, [], ◌∷◌, arith, Result, ok, err, GoString, str, str_eq,
}
use go_rdap_server.Store.Interface.{Error}
use go_rdap_server.Handlers.{Handler, Request, Platform, Body, write_json, write_error}
use go_rdap_server.Handlers.Searches.{
  search_domains, search_entities, search_nameservers, answer, Choice, ambiguous, missing, first,
  second, choose,
}

-- Both patterns are given, or neither is.
abbrev pub BothOrNeither : GoString → GoString → Type 0
BothOrNeither a b = ((a ≢ []) × (b ≢ [])) ⊎ ((a ≡ []) × (b ≡ []))

-- A choice that goes on to the service.
abbrev IsChosen : Choice → Type 0
IsChosen ambiguous = ⊥
IsChosen missing = ⊥
IsChosen (first s) = Unit
IsChosen (second s) = Unit

answer-status : {A : Type 0} (f : A → Body) (r : Result Error A) → (answer f r).status ≢ 400
unfolding write_json write_error
answer-status f (ok x) = omega arith
answer-status f (err e) = omega arith

choose-cases :
    (a b : GoString)
    → (BothOrNeither a b × ((choose a b ≡ ambiguous) ⊎ (choose a b ≡ missing)))
      ⊎ (¬ BothOrNeither a b
          × (((s : GoString) × (choose a b ≡ first s))
              ⊎ ((s : GoString) × (choose a b ≡ second s))))
unfolding choose str_eq
choose-cases [] [] = inl (inr (refl, refl), inr refl)
choose-cases [] (c ∷ b) =
    inr (λ h. elim h [ inl p ↦ p.0 refl | inr p ↦ cc (p.1) ], inr (c ∷ b, refl))
choose-cases (c ∷ a) [] =
    inr (λ h. elim h [ inl p ↦ p.1 refl | inr p ↦ cc (p.0) ], inl (c ∷ a, refl))
choose-cases (c ∷ a) (d ∷ b) = inl (inl ((λ e. cc e), (λ e. cc e)), inl refl)

module _ (p : Platform) (h : Handler) (r : Request) where
  search_domains-bad :
      ((search_domains p h r).status ≡ 400)
      ↔ BothOrNeither (r.query (str "name")) (r.query (str "nsLdhName"))
  unfolding search_domains write_json write_error
  search_domains-bad = elim (choose-cases (r.query (str "name")) (r.query (str "nsLdhName"))) [
    | inl (bad, inl e) ↦ rw (e, search_domains) (λ q. bad, λ q. refl)
    | inl (bad, inr e) ↦ rw (e, search_domains) (λ q. bad, λ q. refl)
    | inr (good, inl (s, e)) ↦
        rw (e, search_domains) (λ q. absurd (answer-status _ _ q), λ q. absurd (good q))
    | inr (good, inr (s, e)) ↦
        rw (e, search_domains) (λ q. absurd (answer-status _ _ q), λ q. absurd (good q))
  ]

  search_entities-bad :
      ((search_entities p h r).status ≡ 400)
      ↔ BothOrNeither (r.query (str "fn")) (r.query (str "handle"))
  unfolding search_entities write_json write_error
  search_entities-bad = elim (choose-cases (r.query (str "fn")) (r.query (str "handle"))) [
    | inl (bad, inl e) ↦ rw (e, search_entities) (λ q. bad, λ q. refl)
    | inl (bad, inr e) ↦ rw (e, search_entities) (λ q. bad, λ q. refl)
    | inr (good, inl (s, e)) ↦
        rw (e, search_entities) (λ q. absurd (answer-status _ _ q), λ q. absurd (good q))
    | inr (good, inr (s, e)) ↦
        rw (e, search_entities) (λ q. absurd (answer-status _ _ q), λ q. absurd (good q))
  ]

  search_nameservers-bad :
      ((search_nameservers p h r).status ≡ 400)
      ↔ BothOrNeither (r.query (str "name")) (r.query (str "ip"))
  unfolding search_nameservers write_json write_error
  search_nameservers-bad = elim (choose-cases (r.query (str "name")) (r.query (str "ip"))) [
    | inl (bad, inl e) ↦ rw (e, search_nameservers) (λ q. bad, λ q. refl)
    | inl (bad, inr e) ↦ rw (e, search_nameservers) (λ q. bad, λ q. refl)
    | inr (good, inl (s, e)) ↦
        rw (e, search_nameservers) (λ q. absurd (answer-status _ _ q), λ q. absurd (good q))
    | inr (good, inr (s, e)) ↦
        rw (e, search_nameservers) (λ q. absurd (answer-status _ _ q), λ q. absurd (good q))
  ]

  -- Each search is a bad request exactly if both of its patterns are given or neither is, whatever
  -- the storage backend answers.
  pub searches-bad_request_iff :
      (((search_domains p h r).status ≡ 400)
        ↔ BothOrNeither (r.query (str "name")) (r.query (str "nsLdhName")))
      × (((search_entities p h r).status ≡ 400)
          ↔ BothOrNeither (r.query (str "fn")) (r.query (str "handle")))
      × (((search_nameservers p h r).status ≡ 400)
          ↔ BothOrNeither (r.query (str "name")) (r.query (str "ip")))
  searches-bad_request_iff = (search_domains-bad, search_entities-bad, search_nameservers-bad)
