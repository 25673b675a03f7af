-- ===== src/Store/Memory/Search.antt =====
-- internal/store/memory.go: the searches. `compile` stands for regexp.Compile, which gives the test
-- of the compiled expression, MatchString, or an error's text.
use go_rdap_server.Base.{
  ℕ, suc, Bool, false, ◌&&◌, ◌||◌, Option, none, some, List, [], ◌∷◌, ◌++◌, if◌then◌else◌, Result,
  ok, err, ◌>>=◌, GoString, str, str_eq, Unicode, to_lower, replace_all, ℤ, pos, is_positive,
  int_leb,
}
use go_rdap_server.Domain.{
  Assoc, lookup, Domain, Contact, ContactInfo, info, NameServer, VCard, ContactRole,
}
use go_rdap_server.Store.Interface.{Error, failure, error_text}
use go_rdap_server.Store.Memory.{MemoryStore}

abbrev pub Matcher : Type 0
Matcher = GoString → Bool

abbrev pub Compile : Type 0
Compile = GoString → Result GoString Matcher

-- limit > 0 && len(results) >= limit
unfoldable pub at_limit : ℤ → ℕ → Bool
at_limit limit n = is_positive limit && int_leb limit (pos n)

-- The loop of a search over a map, with `n` results so far.
unfoldable pub collect : {V : Type 0} → (V → Bool) → ℤ → ℕ → Assoc GoString V → List V
unfolding at_limit
collect p limit n [] = []
collect p limit n ((k, v) ∷ m) =
    let taken = collect p limit (suc n) m in
    let skipped = collect p limit n m in
    if p v then v ∷ (if at_limit limit (suc n) then [] else taken) else skipped

-- The text that compileGlob hands to regexp.Compile.
unfoldable pub glob_source : GoString → GoString
glob_source pattern =
    str "^" ++ replace_all b'*' (str ".*") (replace_all b'.' (str "\\.") pattern) ++ str "$"

-- What SearchDomainsByName makes of its pattern before compileGlob.
unfoldable pub domain_pattern : Unicode → GoString → GoString
domain_pattern u pattern =
    replace_all b'?' (str ".") (replace_all b'*' (str ".*") (to_lower u pattern))

module _ (compile : Compile) where
  unfoldable pub compile_glob : GoString → Result Error Matcher
  compile_glob pattern = elim (compile (glob_source pattern)) [
    | err e ↦ err (failure (str "invalid pattern: " ++ e))
    | ok re ↦ ok re
  ]

-- The loop over domainNames.
unfoldable pub collect_named : MemoryStore → ℤ → ℕ → List GoString → List Domain
unfolding at_limit
collect_named s limit n [] = []
collect_named s limit n (dn ∷ more) =
    let taken = collect_named s limit (suc n) more in
    let skipped = collect_named s limit n more in
    elim (lookup dn s.domains) [
      | none ↦ skipped
      | some d ↦ d ∷ (if at_limit limit (suc n) then [] else taken)
    ]

-- The inner loops of SearchNameserversByIP: one hit at most, then `break`.
unfoldable pub has_address : GoString → List GoString → Bool
has_address ip [] = false
has_address ip (v ∷ vs) = str_eq v ip || has_address ip vs

-- The outer loop, with `n` results so far.
unfoldable pub collect_by_ip : GoString → ℤ → ℕ → Assoc GoString NameServer → List NameServer
unfolding at_limit has_address
collect_by_ip ip limit n [] = []
collect_by_ip ip limit n ((k, ns) ∷ m) =
    let none_more = collect_by_ip ip limit n m in
    let one_more = collect_by_ip ip limit (suc n) m in
    let two_more = collect_by_ip ip limit (suc (suc n)) m in
    let v6 = has_address ip ns.ipv6 in
    if has_address ip ns.ipv4
    then (if at_limit limit (suc n)
        then ns ∷ []
        else if v6
        then ns ∷ ns ∷ (if at_limit limit (suc (suc n)) then [] else two_more)
        else ns ∷ one_more)
    else if at_limit limit n
    then []
    else if v6
    then ns ∷ (if at_limit limit (suc n) then [] else one_more)
    else none_more

-- handles[h] = true
unfoldable pub add_handle : GoString → List GoString → List GoString
unfolding has_address
add_handle h hs = if has_address h hs then hs else hs ++ h ∷ []

unfoldable pub add_handles : List GoString → List GoString → List GoString
unfolding add_handle
add_handles [] hs = hs
add_handles (h ∷ more) hs = add_handles more (add_handle h hs)

unfoldable pub add_role_handles : Assoc GoString (List GoString) → List GoString → List GoString
unfolding add_handles
add_role_handles [] hs = hs
add_role_handles ((role, handles) ∷ more) hs = add_role_handles more (add_handles handles hs)

unfoldable pub entity_handles : Domain → List GoString
unfolding add_role_handles
entity_handles d =
    add_role_handles d.contacts (if str_eq d.registrar [] then [] else d.registrar ∷ [])

module _ (u : Unicode) (s : MemoryStore) where
  unfoldable pub any_role : Matcher → List ContactRole → Bool
  any_role re [] = false
  any_role re (r ∷ rs) = re (to_lower u r) || any_role re rs

  abbrev pub vcard_matches : Matcher → (VCard → GoString) → Option VCard → Bool
  vcard_matches re field none = false
  vcard_matches re field (some v) = re (to_lower u (field v))

  -- The switch on the property.
  unfoldable pub contact_matches : GoString → Matcher → GoString → ContactInfo → Bool
  unfolding any_role
  contact_matches property re handle c =
      if str_eq property (str "role")
      then any_role re c.roles
      else if str_eq property (str "handle")
      then re (to_lower u handle)
      else if str_eq property (str "fn")
      then vcard_matches re (λ v. v.full_name) c.vcard
      else if str_eq property (str "email")
      then vcard_matches re (λ v. v.email) c.vcard
      else false

  abbrev pub handle_matches : GoString → Matcher → GoString → Bool
  handle_matches property re handle = elim (lookup handle s.contacts) [
    | none ↦ false
    | some c ↦ contact_matches property re handle (info c)
  ]

  unfoldable pub any_handle_matches : GoString → Matcher → List GoString → Bool
  any_handle_matches property re [] = false
  any_handle_matches property re (h ∷ hs) =
      handle_matches property re h || any_handle_matches property re hs

  unfoldable pub domain_matches_entity : GoString → Matcher → Domain → Bool
  unfolding any_handle_matches entity_handles
  domain_matches_entity property re d = any_handle_matches property re (entity_handles d)

  module _ (compile : Compile) where
    unfoldable pub search_domains_by_name : GoString → ℤ → Result Error (List Domain)
    unfolding compile_glob
    search_domains_by_name pattern limit = do
      re ← compile_glob compile (domain_pattern u pattern)
      ok (collect (λ d. re d.ldh_name) limit 0 s.domains)

    unfoldable pub search_domains_by_ns : GoString → ℤ → Result Error (List Domain)
    unfolding collect_named
    search_domains_by_ns ns_name limit = elim (lookup (to_lower u ns_name) s.domain_by_ns) [
      | none ↦ ok []
      | some names ↦ ok (collect_named s limit 0 names)
    ]

    unfoldable pub search_contacts_by_name : GoString → ℤ → Result Error (List Contact)
    unfolding compile_glob
    search_contacts_by_name pattern limit = do
      re ← compile_glob compile (to_lower u pattern)
      ok (collect (λ e. re (to_lower u (info e).handle)) limit 0 s.contacts)

    unfoldable pub search_nameservers_by_name : GoString → ℤ → Result Error (List NameServer)
    unfolding compile_glob
    search_nameservers_by_name pattern limit = do
      re ← compile_glob compile (to_lower u pattern)
      ok (collect (λ n. re n.ldh_name) limit 0 s.nameservers)

    unfoldable pub search_nameservers_by_ip : GoString → ℤ → Result Error (List NameServer)
    unfolding collect_by_ip
    search_nameservers_by_ip ip limit = ok (collect_by_ip ip limit 0 s.nameservers)

    unfoldable pub reverse_search_domains_by_entity :
        GoString → GoString → ℤ → Result Error (List Domain)
    unfolding compile_glob domain_matches_entity
    reverse_search_domains_by_entity property pattern limit =
        elim (compile_glob compile (to_lower u pattern)) [
          | err e ↦ err (failure (str "invalid pattern: " ++ error_text e))
          | ok re ↦ ok (collect (domain_matches_entity property re) limit 0 s.domains)
        ]
