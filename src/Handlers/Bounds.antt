-- ===== src/Handlers/Bounds.antt =====
-- How many results the response to a search may hold.
use go_rdap_server.Base.{
  ℕ, zero, suc, ◌≤◌, ◌<◌, ◌≡◌, ◌⊎◌, ap, ◌∙◌, leb, refl, sym, Option, none, some, List, [], ◌∷◌,
  arith, map, length, length-map, Result, ok, err, GoString, ℤ, pos, str, str_eq, atoi, Bool-cases,
  inl, inr,
}
use mathlib.Core.Path.{subst}
use go_rdap_server.Service.Queries
use go_rdap_server.Service.Queries.{map_results}
use go_rdap_server.Rdap.Models
use go_rdap_server.Config.{extensions_enabled}
use go_rdap_server.Store.Interface.{Error, failure, reverse_search_unsupported}
use go_rdap_server.Store.Memory.Bounded.{AtMost, IsBounded}
use go_rdap_server.Handlers.{
  Handler, Request, Platform, Body, search_limit, limit_up_to, request_url, write_json, write_error,
  domains, entities, nameservers, help, domain, entity, nameserver, ip_network, autnum, error,
}
use go_rdap_server.Handlers.Searches.{
  search_domains, search_entities, search_nameservers, reverse_search_domains, answer, Choice,
  ambiguous, missing, first, second, choose, limit_of, reverse_answer, reverse_search,
}

-- The results that a body lists.
abbrev pub size : Body → ℕ
size (domains x) = length x.domain_search_results
size (entities x) = length x.entity_search_results
size (nameservers x) = length x.nameserver_search_results
size (help x) = 0
size (domain x) = 0
size (entity x) = 0
size (nameserver x) = 0
size (ip_network x) = 0
size (autnum x) = 0
size (error x) = 0

limit_up_to-bounds :
    (k : ℕ) (o : Option ℤ) → (n : ℕ) × (limit_up_to (pos (suc k)) o ≡ pos (suc n)) × (n ≤ k)
limit_up_to-bounds k none = (k, refl, omega arith)
limit_up_to-bounds k (some (pos zero)) = (k, refl, omega arith)
limit_up_to-bounds k (some (pos (suc j))) = elim (Bool-cases (leb (suc j) (suc k))) [
  | inl e ↦ (j, ground arith, ground arith)
  | inr e ↦ (k, ground arith, omega arith)
]
limit_up_to-bounds k (some (ℤ.negsuc j)) = (k, refl, omega arith)

-- The limit is from 1 to the maximum, whatever the query says, if the maximum is positive.
pub search_limit-bounds :
    (max : ℕ) (l : GoString)
    → 0 < max
    → (n : ℕ) × (search_limit (pos max) l ≡ pos (suc n)) × (suc n ≤ max)
unfolding search_limit
search_limit-bounds zero l h = absurd (omega (arith, h))
search_limit-bounds (suc k) l h = elim (Bool-cases (str_eq l [])) [
  | inl e ↦ (k, rw e refl, omega arith)
  | inr e ↦ let (n, q, le) = limit_up_to-bounds k (atoi l) in (n, rw e q, omega (arith, le))
]

AtMost_mono : {A : Type 0} {m n : ℕ} (r : Result Error (List A)) → AtMost m r → m ≤ n → AtMost n r
AtMost_mono (ok xs) h le = omega (arith, h)
AtMost_mono (err e) h le = tt

limited-AtMost :
    {A : Type 0} (op : ℤ → Result Error (List A)) (m : ℤ) (max : ℕ) (l : GoString)
    → m ≡ pos max
    → 0 < max
    → ((n : ℕ) → AtMost (suc n) (op (pos (suc n))))
    → AtMost max (op (search_limit m l))
limited-AtMost op m max l e h bound =
    let (n, q, le) = search_limit-bounds max l h in
    subst (λ x. AtMost max (op x)) (sym (ap (λ x. search_limit x l) e ∙ q))
      (AtMost_mono (op (pos (suc n))) (bound n) le)

answer-size :
    {A B : Type 0} (f : List B → Body) (g : A → B) (r : Result Error (List A)) (max : ℕ)
    → ((xs : List B) → size (f xs) ≡ length xs)
    → AtMost max r
    → size (answer f (map_results g r)).body ≤ max
unfolding write_json write_error
answer-size f g (err e) max sized h = omega arith
answer-size f g (ok xs) max sized h = omega (arith, sized (map g xs), length-map g xs, h)

Choice-cases :
    (c : Choice)
    → (c ≡ ambiguous)
      ⊎ ((c ≡ missing) ⊎ (((s : GoString) × (c ≡ first s)) ⊎ ((s : GoString) × (c ≡ second s))))
Choice-cases ambiguous = inl refl
Choice-cases missing = inr (inl refl)
Choice-cases (first s) = inr (inr (inl (s, refl)))
Choice-cases (second s) = inr (inr (inr (s, refl)))

module _ (p : Platform) (h : Handler) (max : ℕ) (bounded : IsBounded h.svc.store)
    (positive : 0 < max) (configured : h.cfg.max_search_limit ≡ pos max) where
  page :
      {A B : Type 0} (f : List B → Body) (g : A → B) (op : ℤ → Result Error (List A)) (r : Request)
      → ((xs : List B) → size (f xs) ≡ length xs)
      → ((n : ℕ) → AtMost (suc n) (op (pos (suc n))))
      → size (answer f (map_results g (op (limit_of p h r)))).body ≤ max
  page f g op r sized bound = answer-size f g (op (limit_of p h r)) max sized (
      limited-AtMost op h.cfg.max_search_limit max (r.query (str "limit")) configured positive
        bound)

  search_domains-size : (r : Request) → size (search_domains p h r).body ≤ max
  unfolding search_domains write_json write_error Queries.search_domains_by_name
      Queries.search_domains_by_ns
  search_domains-size r =
      elim (Choice-cases (choose (r.query (str "name")) (r.query (str "nsLdhName")))) [
        | inl e ↦ rw (e, search_domains) (omega arith)
        | inr (inl e) ↦ rw (e, search_domains) (omega arith)
        | inr (inr (inl (s, e))) ↦
            rw (e, search_domains)
              (page _ _ (h.svc.store.search_domains_by_name s) r (λ xs. refl)
                (bounded.domains_by_name s))
        | inr (inr (inr (s, e))) ↦
            rw (e, search_domains)
              (page _ _ (h.svc.store.search_domains_by_ns s) r (λ xs. refl)
                (bounded.domains_by_ns s))
      ]

  search_entities-size : (r : Request) → size (search_entities p h r).body ≤ max
  unfolding search_entities write_json write_error Queries.search_entities_by_name
      Queries.search_entities_by_handle
  search_entities-size r =
      elim (Choice-cases (choose (r.query (str "fn")) (r.query (str "handle")))) [
        | inl e ↦ rw (e, search_entities) (omega arith)
        | inr (inl e) ↦ rw (e, search_entities) (omega arith)
        | inr (inr (inl (s, e))) ↦
            rw (e, search_entities)
              (page _ _ (h.svc.store.search_contacts_by_name s) r (λ xs. refl)
                (bounded.contacts_by_name s))
        | inr (inr (inr (s, e))) ↦
            rw (e, search_entities)
              (page _ _ (h.svc.store.search_contacts_by_handle s) r (λ xs. refl)
                (bounded.contacts_by_handle s))
      ]

  search_nameservers-size : (r : Request) → size (search_nameservers p h r).body ≤ max
  unfolding search_nameservers write_json write_error Queries.search_nameservers_by_name
      Queries.search_nameservers_by_ip
  search_nameservers-size r =
      elim (Choice-cases (choose (r.query (str "name")) (r.query (str "ip")))) [
        | inl e ↦ rw (e, search_nameservers) (omega arith)
        | inr (inl e) ↦ rw (e, search_nameservers) (omega arith)
        | inr (inr (inl (s, e))) ↦
            rw (e, search_nameservers)
              (page _ _ (h.svc.store.search_nameservers_by_name s) r (λ xs. refl)
                (bounded.nameservers_by_name s))
        | inr (inr (inr (s, e))) ↦
            rw (e, search_nameservers)
              (page _ _ (h.svc.store.search_nameservers_by_ip s) r (λ xs. refl)
                (bounded.nameservers_by_ip s))
      ]

  reverse-size :
      {A : Type 0} (g : A → Models.Domain) (r : Request) (property : GoString)
      (found : Result Error (List A))
      → AtMost max found
      → size (reverse_answer p h r property (map_results g found)).body ≤ max
  unfolding write_json write_error
  reverse-size g r property (err reverse_search_unsupported) bound = omega arith
  reverse-size g r property (err (failure e)) bound = omega arith
  reverse-size g r property (ok xs) bound = omega (arith, length-map g xs, bound)

  reverse_search-size :
      (r : Request) (ps : List (GoString × GoString)) → size (reverse_search p h r ps).body ≤ max
  unfolding write_json write_error Queries.reverse_search_domains_by_entity request_url
  reverse_search-size r [] = omega arith
  reverse_search-size r ((property, pattern) ∷ []) = elim (Bool-cases h.svc.ext.reverse_search) [
    | inl on ↦
        rw (on, reverse_search)
          (reverse-size _ r property
            (h.svc.store.reverse_search_domains_by_entity property pattern (limit_of p h r))
            (limited-AtMost (h.svc.store.reverse_search_domains_by_entity property pattern)
              h.cfg.max_search_limit max (r.query (str "limit")) configured positive
              (bounded.reverse_search property pattern)))
    | inr off ↦ rw (off, reverse_search) (omega arith)
  ]
  reverse_search-size r (a ∷ b ∷ more) = omega arith

  reverse_search_domains-size : (r : Request) → size (reverse_search_domains p h r).body ≤ max
  unfolding reverse_search_domains write_json write_error
  reverse_search_domains-size r =
      elim (Bool-cases (extensions_enabled h.cfg (str "reverse_search"))) [
        | inl on ↦ rw (on, reverse_search_domains) (reverse_search-size r _)
        | inr off ↦ rw (off, reverse_search_domains) (omega arith)
      ]

  -- Every search, the reverse search included, answers with at most as many results as the
  -- configured maximum, if that is positive and the storage backend keeps to the limit that it is
  -- given.
  pub searches-size :
      (r : Request)
      → (size (search_domains p h r).body ≤ max)
        × (size (search_entities p h r).body ≤ max)
        × (size (search_nameservers p h r).body ≤ max)
        × (size (reverse_search_domains p h r).body ≤ max)
  searches-size r = (
    search_domains-size r,
    search_entities-size r,
    search_nameservers-size r,
    reverse_search_domains-size r,
  )
