-- ===== src/Whois/Query.antt =====
-- internal/whois/whois.go: parseQuery.
pub mod Kinds
use go_rdap_server.Base.{
  ℕ, Bool, false, ◌&&◌, ◌||◌, List, [], ◌∷◌, if◌then◌else◌, is_empty, all, leb, GoString, str,
  str_eq, Unicode, is_ascii_text, is_space, to_lower, trim_space, has_prefix, drop, contains_byte,
}

abbrev extend_first : ℕ → List GoString → List GoString
extend_first c [] = (c ∷ []) ∷ []
extend_first c (w ∷ ws) = (c ∷ w) ∷ ws

-- The fields of ASCII text; the first one is the word under way, which may be empty.
unfoldable pub ascii_words : GoString → List GoString
ascii_words [] = [] ∷ []
ascii_words (c ∷ s) =
    let words = ascii_words s in if is_space c then [] ∷ words else extend_first c words

unfoldable pub drop_empty : List GoString → List GoString
drop_empty [] = []
drop_empty (w ∷ ws) = let rest = drop_empty ws in if is_empty w then rest else w ∷ rest

-- strings.Fields
unfoldable pub fields : Unicode → GoString → List GoString
unfolding ascii_words drop_empty
fields u s = if is_ascii_text s then drop_empty (ascii_words s) else u.fields s

unfoldable pub is_numeric : GoString → Bool
is_numeric [] = false
is_numeric (c ∷ s) = all (λ b. leb b'0' b && leb b b'9') (c ∷ s)

-- The kinds of a query; `unrecognized` is the empty kind.
pub data Kind : Type 0 where
  domain nameserver entity ip autnum unrecognized : Kind

abbrev pub kind_text : Kind → GoString
kind_text domain = str "domain"
kind_text nameserver = str "nameserver"
kind_text entity = str "entity"
kind_text ip = str "ip"
kind_text autnum = str "autnum"
kind_text unrecognized = []

-- The switch on the first of two or more fields.
unfoldable pub keyword_kind : GoString → Kind
keyword_kind w =
    if str_eq w (str "domain") || str_eq w (str "dom")
    then domain
    else if str_eq w (str "nameserver") || str_eq w (str "ns")
    then nameserver
    else if str_eq w (str "entity") || str_eq w (str "contact")
    then entity
    else if str_eq w (str "ip") || (str_eq w (str "ipnetwork") || str_eq w (str "network"))
    then ip
    else if str_eq w (str "asn") || str_eq w (str "autnum")
    then autnum
    else unrecognized

module _ (u : Unicode) where
  -- The switch on a single token.
  unfoldable pub detect_kind : GoString → Kind
  unfolding is_numeric
  detect_kind t =
      if has_prefix (str "as") (to_lower u t) && is_numeric (drop 2 (to_lower u t))
      then autnum
      else if contains_byte b'/' t
      then ip
      else if has_prefix (str "ns") (to_lower u t) && contains_byte b'.' t
      then nameserver
      else if contains_byte b'.' t
      then domain
      else if is_numeric t
      then entity
      else entity

  abbrev by_keyword : GoString → GoString → Kind → GoString × Kind
  by_keyword first second unrecognized = (first, detect_kind first)
  by_keyword first second kind = (second, kind)

  unfoldable pub parse_fields : List GoString → GoString × Kind
  unfolding detect_kind keyword_kind
  parse_fields [] = ([], unrecognized)
  parse_fields (t ∷ []) = (t, detect_kind t)
  parse_fields (t ∷ target ∷ more) = by_keyword t target (keyword_kind (to_lower u t))

  unfoldable pub parse_query : GoString → GoString × Kind
  unfolding parse_fields fields
  parse_query line =
      let line' = trim_space u line in
      if is_empty line' then ([], unrecognized) else parse_fields (fields u line')
