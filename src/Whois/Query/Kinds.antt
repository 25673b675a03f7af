-- ===== src/Whois/Query/Kinds.antt =====
-- What a query line can be taken for.
use go_rdap_server.Base.{
  ◌≡◌, ◌≢◌, refl, true, List, [], ◌∷◌, arith, GoString, Unicode, trim_space, is_empty, to_lower,
  Bool-cases, inl, inr,
}
use go_rdap_server.Whois.Query.{
  Kind, domain, nameserver, entity, ip, autnum, unrecognized, detect_kind, keyword_kind, by_keyword,
  parse_fields, parse_query, fields,
}

empty_nil : (s : GoString) → is_empty s ≡ true → s ≡ []
empty_nil [] h = refl
empty_nil (c ∷ s) h = cc

module _ (u : Unicode) where
  detect_kind-ne : (t : GoString) → detect_kind u t ≢ unrecognized
  unfolding detect_kind
  detect_kind-ne t = ground arith

  by_keyword-ne : (a b : GoString) (k : Kind) → (by_keyword u a b k).1 ≢ unrecognized
  by_keyword-ne a b domain = cc
  by_keyword-ne a b nameserver = cc
  by_keyword-ne a b entity = cc
  by_keyword-ne a b ip = cc
  by_keyword-ne a b autnum = cc
  by_keyword-ne a b unrecognized = detect_kind-ne a

  parse_fields-ne : (ws : List GoString) → ws ≢ [] → (parse_fields u ws).1 ≢ unrecognized
  unfolding parse_fields
  parse_fields-ne [] h = absurd (h refl)
  parse_fields-ne (t ∷ []) h = detect_kind-ne t
  parse_fields-ne (t ∷ target ∷ more) h = by_keyword-ne t target (keyword_kind (to_lower u t))

  -- A line with a field is taken for a query of one of the five kinds, so that it never gets the
  -- answer for an unrecognized query.
  pub parse_query-recognized :
      (line : GoString)
      → trim_space u line ≢ []
      → fields u (trim_space u line) ≢ []
      → (parse_query u line).1 ≢ unrecognized
  unfolding parse_query
  parse_query-recognized line given some_field = elim (Bool-cases (is_empty (trim_space u line))) [
    | inl e ↦ absurd (given (empty_nil (trim_space u line) e))
    | inr e ↦ rw (e, parse_query) (parse_fields-ne (fields u (trim_space u line)) some_field)
  ]
