-- ===== src/Rdap/Names/Ldh.antt =====
-- The names that ValidateLDHName accepts, and what NormalizeDomainName returns.
use go_rdap_server.Base.{
  ℕ, suc, ◌+◌, ◌≤◌, ◌<◌, ◌≡◌, ◌≢◌, ◌↔◌, ◌⊎◌, inl, inr, refl, true, Bool, ◌&&◌, ◌||◌, not, List, [],
  ◌∷◌, length, All, arith, Bool-cases, ok, Result-cases, GoString, Unicode, split, trim_suffix,
  is_ascii_text, ltb, ◌==◌,
}
use go_rdap_server.Rdap.Names.{
  is_ldh_byte, label_bytes_ok, ldh_labels_ok, validate_ldh_name, Idna, normalize_idn, prepared,
  normalize_prepared, normalize_domain_name,
}

-- A lower-case letter, a digit or a hyphen.
abbrev pub IsLdhByte : ℕ → Type 0
IsLdhByte b = ((97 ≤ b) × (b ≤ 122)) ⊎ (((48 ≤ b) × (b ≤ 57)) ⊎ (b ≡ 45))

-- The bytes behind the first one of a label: the last is no hyphen.
abbrev pub IsLdhRest : GoString → Type 0
IsLdhRest [] = Unit
IsLdhRest (b ∷ []) = IsLdhByte b × (b ≢ 45)
IsLdhRest (b ∷ c ∷ more) = IsLdhByte b × IsLdhRest (c ∷ more)

abbrev pub IsLdhLabel : GoString → Type 0
IsLdhLabel [] = ⊥
IsLdhLabel (b ∷ more) = (b ≢ 45) × IsLdhRest (b ∷ more) × (length (b ∷ more) ≤ 63)

is_ldh_byte_iff : (b : ℕ) → (is_ldh_byte b ≡ true) ↔ IsLdhByte b
unfolding is_ldh_byte
is_ldh_byte_iff b = (λ h. ground arith, λ h. ground arith)

-- Behind the first byte, `i` of `n` bytes are read and `label` is left.
rest_iff :
    (label : GoString) (i n : ℕ)
    → 0 < i
    → n ≡ i + length label
    → (label_bytes_ok i n label ≡ true) ↔ IsLdhRest label
unfolding label_bytes_ok
rest_iff [] i n p e = (λ h. tt, λ h. refl)
rest_iff (b ∷ []) i n p e =
    (λ h. ground (arith, (is_ldh_byte_iff b).0), λ h. ground (arith, (is_ldh_byte_iff b).1))
rest_iff (b ∷ c ∷ more) i n p e =
    let later = rest_iff (c ∷ more) (suc i) n (omega arith) (omega arith) in
    (
      λ h. ground (arith, (is_ldh_byte_iff b).0, later.0),
      λ h. ground (arith, (is_ldh_byte_iff b).1, later.1),
    )

-- The checks of one label by the loop.
abbrev label_ok : GoString → Bool
label_ok label =
    not (length label == 0 || ltb 63 (length label)) && label_bytes_ok 0 (length label) label

label_ok_iff : (label : GoString) → (label_ok label ≡ true) ↔ IsLdhLabel label
unfolding label_bytes_ok
label_ok_iff [] = (λ h. cc, λ h. absurd h)
label_ok_iff (b ∷ []) =
    (λ h. ground (arith, (is_ldh_byte_iff b).0), λ h. ground (arith, (is_ldh_byte_iff b).1))
label_ok_iff (b ∷ c ∷ more) =
    let later = rest_iff (c ∷ more) 1 (length (b ∷ c ∷ more)) (omega arith) (omega arith) in
    (
      λ h. ground (arith, (is_ldh_byte_iff b).0, later.0),
      λ h. ground (arith, (is_ldh_byte_iff b).1, later.1),
    )

labels_iff : (labels : List GoString) → (ldh_labels_ok labels ≡ true) ↔ All IsLdhLabel labels
unfolding ldh_labels_ok
labels_iff [] = (λ h. tt, λ h. refl)
labels_iff (label ∷ labels) = (
  λ h. ground (arith, (label_ok_iff label).0, (labels_iff labels).0),
  λ h. ground (arith, (label_ok_iff label).1, (labels_iff labels).1),
)

-- A name of 1 to 253 bytes whose labels, one dot at its end aside, are LDH labels.
abbrev pub IsLdhName : GoString → Type 0
IsLdhName name =
    (name ≢ []) × (length name ≤ 253) × All IsLdhLabel (split b'.' (trim_suffix b'.' name))

-- ValidateLDHName accepts exactly the names of 1 to 253 bytes whose labels between the dots, but
-- for one dot at the end, have 1 to 63 lower-case letters, digits and hyphens, with no hyphen at
-- either end.
pub validate_ldh_name_iff : (name : GoString) → (validate_ldh_name name ≡ true) ↔ IsLdhName name
unfolding validate_ldh_name
validate_ldh_name_iff [] = (λ h. cc, λ h. absurd (h.0 refl))
validate_ldh_name_iff (b ∷ more) =
    let labels = labels_iff (split b'.' (trim_suffix b'.' (b ∷ more))) in
    (λ h. (λ e. cc, ground arith, labels.0 (ground arith)), λ h. ground (arith, labels.1 h.2))

module _ (u : Unicode) (idna : Idna) where
  normalize_idn_sound :
      (name ldh unicode : GoString)
      → normalize_idn u idna name ≡ ok (ldh, unicode)
      → validate_ldh_name ldh ≡ true
  unfolding normalize_idn
  normalize_idn_sound name ldh unicode h = elim (Result-cases (idna.to_ascii name)) [
    | inl (e, bad) ↦ cc (rw (bad, normalize_idn) at h)
    | inr (a, good) ↦ elim (Result-cases (idna.to_unicode name)) [
      | inl (e, bad) ↦ cc (rw (good, normalize_idn, bad) at h)
      | inr (b, fine) ↦ elim (Bool-cases (validate_ldh_name a)) [
        | inl valid ↦ let e = rw (good, normalize_idn, fine, valid) at h in ground (arith, e, valid)
        | inr invalid ↦ cc (rw (good, normalize_idn, fine, invalid) at h)
      ]
    ]
  ]

  -- Whatever the IDNA library answers, the name that NormalizeDomainName returns for the lookup is
  -- an LDH name.
  pub normalize_domain_name-IsLdhName :
      (name ldh unicode : GoString)
      → normalize_domain_name u idna name ≡ ok (ldh, unicode)
      → IsLdhName ldh
  unfolding normalize_domain_name normalize_prepared
  normalize_domain_name-IsLdhName name ldh unicode h =
      elim (Bool-cases (is_ascii_text (prepared u idna name))) [
        | inr other ↦ (validate_ldh_name_iff ldh).0 (
            normalize_idn_sound (prepared u idna name) ldh unicode
              (rw (other, normalize_domain_name) at h))
        | inl ascii ↦ elim (Bool-cases (validate_ldh_name (prepared u idna name))) [
          | inl valid ↦
              (validate_ldh_name_iff ldh).0
                (ground (arith, valid, (rw (ascii, normalize_domain_name, valid) at h)))
          | inr invalid ↦ cc (rw (ascii, normalize_domain_name, invalid) at h)
        ]
      ]
