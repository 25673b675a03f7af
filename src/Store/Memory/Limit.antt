-- ===== src/Store/Memory/Limit.antt =====
-- The searches over a map as the first results of all that match.
use go_rdap_server.Base.{
  ℕ, zero, suc, ◌+◌, ◌≡◌, refl, ap, false, Bool, List, [], ◌∷◌, ◌++◌, arith, if◌then◌else◌, ok,
  GoString, Unicode, to_lower, ℤ, pos, is_positive, to_nat,
}
use go_rdap_server.Domain.{Assoc, info, NameServer}
use go_rdap_server.Store.Memory.{MemoryStore}
use go_rdap_server.Store.Memory.Search.{
  Matcher, Compile, collect, domain_pattern, compile_glob, search_domains_by_name,
  search_contacts_by_name, search_nameservers_by_name, reverse_search_domains_by_entity,
  domain_matches_entity, collect_by_ip, has_address, at_limit, search_nameservers_by_ip,
}

module _ {V : Type 0} where
  -- All values of the map that pass the test, in its order.
  abbrev pub matching : (V → Bool) → Assoc GoString V → List V
  matching p [] = []
  matching p ((k, v) ∷ m) = if p v then v ∷ matching p m else matching p m

  abbrev pub take : ℕ → List V → List V
  take zero xs = []
  take (suc n) [] = []
  take (suc n) (x ∷ xs) = x ∷ take n xs

  -- A limit that is not positive is none.
  abbrev pub first_results : ℤ → List V → List V
  first_results limit xs = if is_positive limit then take (to_nat limit) xs else xs

  collect_all :
      (p : V → Bool) (limit : ℤ) (n : ℕ) (m : Assoc GoString V)
      → is_positive limit ≡ false
      → collect p limit n m ≡ matching p m
  unfolding collect
  collect_all p limit n [] h = refl
  collect_all p limit n ((k, v) ∷ m) h =
      ground (arith, collect_all p limit (suc n) m h, collect_all p limit n m h)

  -- `left` more results after the next one fit under the limit.
  collect_some :
      (p : V → Bool) (left total n : ℕ) (m : Assoc GoString V)
      → total ≡ n + suc left
      → collect p (pos total) n m ≡ take (suc left) (matching p m)
  unfolding collect
  collect_some p left total n [] e = refl
  collect_some p zero total n ((k, v) ∷ m) e = ground (arith, collect_some p zero total n m e)
  collect_some p (suc left) total n ((k, v) ∷ m) e = ground (
    arith,
    collect_some p (suc left) total n m e,
    collect_some p left total (suc n) m (omega arith),
  )

  -- The loop with its early exit is the first results of all that match.
  pub collect-eq-first :
      (p : V → Bool) (limit : ℤ) (m : Assoc GoString V)
      → collect p limit 0 m ≡ first_results limit (matching p m)
  collect-eq-first p (pos zero) m = collect_all p (pos zero) 0 m refl
  collect-eq-first p (pos (suc n)) m = ground (arith, collect_some p n (suc n) 0 m (omega arith))
  collect-eq-first p (ℤ.negsuc n) m = collect_all p (ℤ.negsuc n) 0 m refl

-- What the loop of SearchNameserversByIP adds with no limit: each nameserver once for an IPv4
-- address that is the text and once for an IPv6 address that is.
abbrev pub hits : GoString → Assoc GoString NameServer → List NameServer
hits ip [] = []
hits ip ((k, ns) ∷ m) =
    (if has_address ip ns.ipv4 then ns ∷ [] else [])
    ++ (if has_address ip ns.ipv6 then ns ∷ [] else [])
    ++ hits ip m

collect_by_ip_all :
    (ip : GoString) (limit : ℤ) (n : ℕ) (m : Assoc GoString NameServer)
    → is_positive limit ≡ false
    → collect_by_ip ip limit n m ≡ hits ip m
unfolding collect_by_ip at_limit
collect_by_ip_all ip limit n [] h = refl
collect_by_ip_all ip limit n ((k, ns) ∷ m) h = ground (
  arith,
  collect_by_ip_all ip limit n m h,
  collect_by_ip_all ip limit (suc n) m h,
  collect_by_ip_all ip limit (suc (suc n)) m h,
)

collect_by_ip_some :
    (ip : GoString) (left total n : ℕ) (m : Assoc GoString NameServer)
    → total ≡ n + suc left
    → collect_by_ip ip (pos total) n m ≡ take (suc left) (hits ip m)
unfolding collect_by_ip at_limit
collect_by_ip_some ip left total n [] e = refl
collect_by_ip_some ip zero total n ((k, ns) ∷ m) e =
    ground (arith, collect_by_ip_some ip zero total n m e)
collect_by_ip_some ip (suc zero) total n ((k, ns) ∷ m) e = ground (
  arith,
  collect_by_ip_some ip (suc zero) total n m e,
  collect_by_ip_some ip zero total (suc n) m (omega arith),
)
collect_by_ip_some ip (suc (suc left)) total n ((k, ns) ∷ m) e = ground (
  arith,
  collect_by_ip_some ip (suc (suc left)) total n m e,
  collect_by_ip_some ip (suc left) total (suc n) m (omega arith),
  collect_by_ip_some ip left total (suc (suc n)) m (omega arith),
)

collect_by_ip-eq-first :
    (ip : GoString) (limit : ℤ) (m : Assoc GoString NameServer)
    → collect_by_ip ip limit 0 m ≡ first_results limit (hits ip m)
collect_by_ip-eq-first ip (pos zero) m = collect_by_ip_all ip (pos zero) 0 m refl
collect_by_ip-eq-first ip (pos (suc n)) m =
    ground (arith, collect_by_ip_some ip n (suc n) 0 m (omega arith))
collect_by_ip-eq-first ip (ℤ.negsuc n) m = collect_by_ip_all ip (ℤ.negsuc n) 0 m refl

module _ (u : Unicode) (s : MemoryStore) (compile : Compile) where
  -- If the patterns compile, each search over a map returns the first results, at most `limit` if
  -- that is positive, of all the values that match, in the order of the map: domains and nameservers
  -- by their LDH name, contacts by their handle, domains by a related entity, and nameservers by an
  -- address, each once for IPv4 and once for IPv6.
  pub searches-eq-first :
      (pattern property ip : GoString) (limit : ℤ) (domain_re re : Matcher)
      → compile_glob compile (domain_pattern u pattern) ≡ ok domain_re
      → compile_glob compile (to_lower u pattern) ≡ ok re
      → (search_domains_by_name u s compile pattern limit
          ≡ ok (first_results limit (matching (λ d. domain_re d.ldh_name) s.domains)))
        × (search_contacts_by_name u s compile pattern limit
            ≡ ok (first_results limit (matching (λ e. re (to_lower u (info e).handle)) s.contacts)))
        × (search_nameservers_by_name u s compile pattern limit
            ≡ ok (first_results limit (matching (λ n. re n.ldh_name) s.nameservers)))
        × (reverse_search_domains_by_entity u s compile property pattern limit
            ≡ ok (first_results limit (matching (domain_matches_entity u s property re) s.domains)))
        × (search_nameservers_by_ip u s compile ip limit
            ≡ ok (first_results limit (hits ip s.nameservers)))
  unfolding search_domains_by_name search_contacts_by_name search_nameservers_by_name
      reverse_search_domains_by_entity search_nameservers_by_ip
  searches-eq-first pattern property ip limit domain_re re hd h = (
    rw hd (ap ok (collect-eq-first _ limit s.domains)),
    rw h (ap ok (collect-eq-first _ limit s.contacts)),
    rw h (ap ok (collect-eq-first _ limit s.nameservers)),
    rw (h, reverse_search_domains_by_entity) (ap ok (collect-eq-first _ limit s.domains)),
    ap ok (collect_by_ip-eq-first ip limit s.nameservers),
  )
