-- ===== src/Store/Memory/Bounded.antt =====
-- How many results a search may give.
use go_rdap_server.Base.{
  ℕ, suc, ◌+◌, ◌≤◌, ◌<◌, Bool, List, [], ◌∷◌, arith, Option-cases, Result-cases, ◌>>=◌, inl, inr,
  length, Result, ok, err, GoString, Unicode, to_lower, pos,
}
use go_rdap_server.Domain.{Assoc, lookup, NameServer, info}
use go_rdap_server.Store.Interface.{Interface, Error}
use go_rdap_server.Store.Memory.{MemoryStore}
use go_rdap_server.Store.Memory.Search.{
  Matcher, Compile, at_limit, collect, collect_named, collect_by_ip, compile_glob,
  search_domains_by_name, search_domains_by_ns, search_contacts_by_name, search_nameservers_by_name,
  search_nameservers_by_ip, reverse_search_domains_by_entity, domain_pattern, domain_matches_entity,
}
use go_rdap_server.Store.Memory.Adapter.{memory_interface}

-- An error, or at most so many results.
abbrev pub AtMost : {A : Type 0} → ℕ → Result Error (List A) → Type 0
AtMost limit (err e) = Unit
AtMost limit (ok xs) = length xs ≤ limit

-- A storage backend that gives at most as many results as a positive limit says.
pub record IsBounded (st : Interface) : Type 0 where
  pub domains_by_name :
      (q : GoString) (n : ℕ) → AtMost (suc n) (st.search_domains_by_name q (pos (suc n)))
  pub domains_by_ns :
      (q : GoString) (n : ℕ) → AtMost (suc n) (st.search_domains_by_ns q (pos (suc n)))
  pub contacts_by_name :
      (q : GoString) (n : ℕ) → AtMost (suc n) (st.search_contacts_by_name q (pos (suc n)))
  pub contacts_by_handle :
      (q : GoString) (n : ℕ) → AtMost (suc n) (st.search_contacts_by_handle q (pos (suc n)))
  pub nameservers_by_name :
      (q : GoString) (n : ℕ) → AtMost (suc n) (st.search_nameservers_by_name q (pos (suc n)))
  pub nameservers_by_ip :
      (q : GoString) (n : ℕ) → AtMost (suc n) (st.search_nameservers_by_ip q (pos (suc n)))
  pub reverse_search :
      (property q : GoString) (n : ℕ)
      → AtMost (suc n) (st.reverse_search_domains_by_entity property q (pos (suc n)))

-- The loops, entered with n results where more fit under the limit.
collect-bound :
    {V : Type 0} (p : V → Bool) (limit n : ℕ) (m : Assoc GoString V)
    → n < limit
    → n + length (collect p (pos limit) n m) ≤ limit
unfolding collect at_limit
collect-bound p limit n [] h = omega arith
collect-bound p limit n ((k, v) ∷ m) h =
    ground (arith, collect-bound p limit (suc n) m, collect-bound p limit n m)

collect_named-bound :
    (s : MemoryStore) (limit n : ℕ) (names : List GoString)
    → n < limit
    → n + length (collect_named s (pos limit) n names) ≤ limit
unfolding collect_named at_limit
collect_named-bound s limit n [] h = omega arith
collect_named-bound s limit n (dn ∷ more) h =
    let taken = collect_named-bound s limit (suc n) more in
    let skipped = collect_named-bound s limit n more in
    elim (Option-cases (lookup dn s.domains)) [
      | inl e ↦ rw (e, length) (skipped h)
      | inr (d, e) ↦ rw (e, length) (ground (arith, taken))
    ]

collect_by_ip-bound :
    (ip : GoString) (limit n : ℕ) (m : Assoc GoString NameServer)
    → n < limit
    → n + length (collect_by_ip ip (pos limit) n m) ≤ limit
unfolding collect_by_ip at_limit
collect_by_ip-bound ip limit n [] h = omega arith
collect_by_ip-bound ip limit n ((k, ns) ∷ m) h = ground (
  arith,
  collect_by_ip-bound ip limit n m,
  collect_by_ip-bound ip limit (suc n) m,
  collect_by_ip-bound ip limit (suc (suc n)) m,
)

module _ (u : Unicode) (compile : Compile) (s : MemoryStore) where
  compiled-bound :
      {V : Type 0} (p : Matcher → V → Bool) (m : Assoc GoString V) (n : ℕ)
      (r : Result Error Matcher)
      → AtMost (suc n) (r >>= λ re. ok (collect (p re) (pos (suc n)) 0 m))
  compiled-bound p m n (err e) = tt
  compiled-bound p m n (ok re) = omega (arith, collect-bound (p re) (suc n) 0 m (omega arith))

  by_ns-bound :
      (q : GoString) (n : ℕ) → AtMost (suc n) (search_domains_by_ns u s compile q (pos (suc n)))
  unfolding search_domains_by_ns
  by_ns-bound q n = elim (Option-cases (lookup (to_lower u q) s.domain_by_ns)) [
    | inl e ↦ rw (e, AtMost) (omega arith)
    | inr (names, e) ↦
        rw (e, AtMost) (omega (arith, collect_named-bound s (suc n) 0 names (omega arith)))
  ]

  reverse-bound :
      (property q : GoString) (n : ℕ)
      → AtMost (suc n) (reverse_search_domains_by_entity u s compile property q (pos (suc n)))
  unfolding reverse_search_domains_by_entity
  reverse-bound property q n = elim (Result-cases (compile_glob compile (to_lower u q))) [
    | inl (e, bad) ↦ rw (bad, reverse_search_domains_by_entity) tt
    | inr (re, good) ↦
        rw (good, reverse_search_domains_by_entity)
          (omega (
            arith,
            collect-bound (domain_matches_entity u s property re) (suc n) 0 s.domains (omega arith),
          ))
  ]

  -- Every search of the memory store, whatever it holds and whatever pattern, address or property
  -- is asked for, gives at most as many results as a positive limit says.
  pub memory_interface-IsBounded : IsBounded (memory_interface u compile s)
  unfolding memory_interface search_domains_by_name search_contacts_by_name
      search_nameservers_by_name search_nameservers_by_ip
  memory_interface-IsBounded = record {
    domains_by_name = λ q n.
        compiled-bound (λ re d. re d.ldh_name) s.domains n
          (compile_glob compile (domain_pattern u q));
    domains_by_ns = by_ns-bound;
    contacts_by_name = λ q n.
        compiled-bound (λ re e. re (to_lower u (info e).handle)) s.contacts n
          (compile_glob compile (to_lower u q));
    contacts_by_handle = λ q n.
        compiled-bound (λ re e. re (to_lower u (info e).handle)) s.contacts n
          (compile_glob compile (to_lower u q));
    nameservers_by_name = λ q n.
        compiled-bound (λ re x. re x.ldh_name) s.nameservers n
          (compile_glob compile (to_lower u q));
    nameservers_by_ip =
        λ q n. omega (arith, collect_by_ip-bound q (suc n) 0 s.nameservers (omega arith));
    reverse_search = reverse-bound;
  }
