-- ===== src/Rdap/Names.antt =====
-- internal/rdap/rdap.go: the checks and the normal form of domain names. The loops over the runes
-- of a label go over its bytes here: a byte of 128 or more belongs to a rune outside ASCII, and
-- both are refused.
pub mod Ldh
use go_rdap_server.Base.{
  ℕ, suc, ◌+◌, ◌-◌, Bool, true, false, not, ◌&&◌, ◌||◌, List, [], ◌∷◌, ◌++◌, length, ltb, leb, ◌==◌,
  if◌then◌else◌, Result, ok, err, GoString, str, Unicode, is_ascii_text, to_lower, trim_space,
  trim_suffix, split, str_eq, equal_fold,
}

unfoldable pub is_ldh_byte : ℕ → Bool
is_ldh_byte r = (leb b'a' r && leb r b'z') || (leb b'0' r && leb r b'9') || r == b'-'

-- The loop over one label: `i` is the index of the byte, `n` is len(label).
unfoldable pub label_bytes_ok : ℕ → ℕ → GoString → Bool
unfolding is_ldh_byte
label_bytes_ok i n [] = true
label_bytes_ok i n (r ∷ label) =
    let rest = label_bytes_ok (suc i) n label in
    if (i == 0 || i == n - 1) && r == b'-' then false else if is_ldh_byte r then rest else false

-- The loop over the labels.
unfoldable pub ldh_labels_ok : List GoString → Bool
unfolding label_bytes_ok
ldh_labels_ok [] = true
ldh_labels_ok (label ∷ labels) =
    let rest = ldh_labels_ok labels in
    if length label == 0 || ltb 63 (length label)
    then false
    else if label_bytes_ok 0 (length label) label
    then rest
    else false

unfoldable pub validate_ldh_name : GoString → Bool
unfolding ldh_labels_ok
validate_ldh_name name =
    if length name == 0 || ltb 253 (length name)
    then false
    else ldh_labels_ok (split b'.' (trim_suffix b'.' name))

-- The text of an error.
abbrev pub Error : Type 0
Error = GoString

unfoldable pub labels_error : List GoString → Result Error (Unit {0})
labels_error [] = ok tt
labels_error (label ∷ labels) =
    let rest = labels_error labels in
    if length label == 0
    then err (str "empty label in domain name")
    else if ltb 63 (length label)
    then err (str "label exceeds 63 characters: " ++ label)
    else rest

unfoldable pub validate_domain_name : GoString → Result Error (Unit {0})
unfolding labels_error
validate_domain_name name =
    if length name == 0
    then err (str "domain name is empty")
    else if ltb 253 (length name)
    then err (str "domain name exceeds 253 characters")
    else let labels = split b'.' (trim_suffix b'.' name) in
      if ltb (length labels) 2
      then err (str "domain name must have at least two labels")
      else labels_error labels

-- golang.org/x/net/idna
pub record Idna : Type 0 where
  pub to_ascii : GoString → Result Error GoString
  pub to_unicode : GoString → Result Error GoString

module _ (u : Unicode) (idna : Idna) where
  -- The branch for a name that is not ASCII.
  unfoldable pub normalize_idn : GoString → Result Error (GoString × GoString)
  unfolding validate_ldh_name
  normalize_idn name = elim (idna.to_ascii name) [
    | err e ↦ err (str "idna conversion failed: " ++ e)
    | ok ascii ↦ elim (idna.to_unicode name) [
      | err e ↦ err (str "idna to unicode failed: " ++ e)
      | ok unicode ↦
          if not (validate_ldh_name ascii)
          then err (str "invalid domain after IDNA conversion: " ++ ascii)
          else ok (ascii, unicode)
    ]
  ]

  abbrev prepared : GoString → GoString
  prepared name = trim_suffix b'.' (to_lower u (trim_space u name))

  -- The test of the prepared name.
  unfoldable pub normalize_prepared : GoString → Result Error (GoString × GoString)
  normalize_prepared name =
      if is_ascii_text name
      then (if not (validate_ldh_name name)
          then err (str "invalid LDH domain name: " ++ name)
          else ok (name, name))
      else normalize_idn name

  unfoldable pub normalize_domain_name : GoString → Result Error (GoString × GoString)
  unfolding normalize_prepared
  normalize_domain_name name = normalize_prepared (prepared name)

abbrev last_of : GoString → List GoString → GoString
last_of d [] = d
last_of d (l ∷ ls) = last_of l ls

-- ExtractTLD: the empty text for a name of one label.
unfoldable pub extract_tld : GoString → GoString
extract_tld name =
    let labels = split b'.' (trim_suffix b'.' name) in
    if ltb (length labels) 2 then [] else last_of [] labels

unfoldable pub is_tld_supported : Unicode → GoString → List GoString → Bool
is_tld_supported u tld [] = false
is_tld_supported u tld (supported ∷ more) =
    equal_fold u supported (to_lower u tld) || is_tld_supported u tld more
