-- ===== src/Rdap/Conformance/Laws.antt =====
-- What appending extension identifiers does to a conformance array.
use go_rdap_server.Base.{
  ◌≡◌, ◌≢◌, ◌↔◌, ◌⊎◌, inl, inr, ◌∙◌, sym, true, false, not, ◌&&◌, List, [], ◌∷◌, ◌++◌, In, arith,
  Bool-cases, GoString, str_eq, str_eq_iff,
}
use mathlib.Core.List.{append-nil, append_assoc}
use go_rdap_server.Rdap.Models.{Conformance}
use go_rdap_server.Rdap.Conformance.{seen, add_extensions, with_extensions}

-- No identifier stands twice.
abbrev pub Nodup : List GoString → Type 0
Nodup [] = Unit
Nodup (x ∷ xs) = ¬ In x xs × Nodup xs

pub seen_iff : (id : GoString) (ids : List GoString) → (seen id ids ≡ true) ↔ In id ids
unfolding seen
seen_iff id [] = (λ h. cc, λ h. absurd h)
seen_iff id (x ∷ xs) = (
  λ h. ground (arith, str_eq_iff x id, (seen_iff id xs).0),
  λ h. ground (arith, str_eq_iff x id, (seen_iff id xs).1),
)

In-append_iff : (a : GoString) (xs ys : List GoString) → In a (xs ++ ys) ↔ (In a xs ⊎ In a ys)
In-append_iff a [] ys = (λ h. inr h, λ h. elim h [ inl m ↦ absurd m | inr m ↦ m ])
In-append_iff a (x ∷ xs) ys =
    (λ h. ground (arith, (In-append_iff a xs ys).0), λ h. ground (arith, (In-append_iff a xs ys).1))

Nodup-snoc : (x : GoString) (xs : List GoString) → Nodup xs → ¬ In x xs → Nodup (xs ++ x ∷ [])
Nodup-snoc x [] h fresh = (λ m. m, tt)
Nodup-snoc x (y ∷ ys) (apart, h) fresh = (
  λ m. elim ((In-append_iff y ys (x ∷ [])).0 m) [
    | inl old ↦ apart old
    | inr new ↦ elim new [ inl e ↦ fresh (inl (sym e)) | inr none ↦ none ]
  ],
  Nodup-snoc x ys h (λ m. fresh (inr m)),
)

-- The array of one round more.
abbrev Round : List GoString → List GoString → List GoString → Type 0
Round ids more result =
    ((added : List GoString) × (result ≡ ids ++ added))
    × (Nodup ids → Nodup result)
    × ((id : GoString) → In id result ↔ (In id ids ⊎ (In id more × (id ≢ []))))

Round-added :
    (ids more : List GoString) (id : GoString) {result : List GoString}
    → (not (str_eq id []) && not (seen id ids)) ≡ true
    → Round (ids ++ id ∷ []) more result
    → Round ids (id ∷ more) result
Round-added ids more id new ((added, e), nodup, mem) = (
  (id ∷ added, e ∙ append_assoc ids (id ∷ []) added),
  λ h. nodup (Nodup-snoc id ids h (λ m. ground (arith, (seen_iff id ids).1 m))),
  λ x. (
    λ m. ground (arith, (mem x).0 m, (In-append_iff x ids (id ∷ [])).0, str_eq_iff id []),
    λ m. (mem x).1 (ground (arith, m, (In-append_iff x ids (id ∷ [])).1)),
  ),
)

Round-skipped :
    (ids more : List GoString) (id : GoString) {result : List GoString}
    → (not (str_eq id []) && not (seen id ids)) ≡ false
    → Round ids more result
    → Round ids (id ∷ more) result
Round-skipped ids more id old (prefix, nodup, mem) = (
  prefix,
  nodup,
  λ x. (
    λ m. ground (arith, (mem x).0 m),
    λ m. (mem x).1 (ground (arith, m, (seen_iff id ids).0, str_eq_iff id [])),
  ),
)

add_extensions_lem : (ids more : List GoString) → Round ids more (add_extensions ids more)
unfolding add_extensions
add_extensions_lem ids [] =
    (([], sym (append-nil ids)), λ h. h, λ x. (inl, λ h. elim h [ inl m ↦ m | inr m ↦ absurd m.0 ]))
add_extensions_lem ids (id ∷ more) = elim (Bool-cases (not (str_eq id []) && not (seen id ids))) [
  | inl new ↦ rw new (Round-added ids more id new (add_extensions_lem (ids ++ id ∷ []) more))
  | inr old ↦ rw old (Round-skipped ids more id old (add_extensions_lem ids more))
]

-- The old array is a prefix of the new one, and the identifiers of the new one are the old ones and
-- those of the extensions that are not empty.
pub with_extensions_lem :
    (c : Conformance) (ext_ids : List GoString)
    → ((added : List GoString) × ((with_extensions c ext_ids).conformance ≡ c.conformance ++ added))
      × ((id : GoString)
          → In id (with_extensions c ext_ids).conformance
            ↔ (In id c.conformance ⊎ (In id ext_ids × (id ≢ []))))
unfolding with_extensions
with_extensions_lem c ext_ids =
    let (prefix, nodup, mem) = add_extensions_lem c.conformance ext_ids in (prefix, mem)

-- An array without repetition has none after the extensions are appended, even if the list of
-- extensions repeats some.
pub with_extensions-Nodup :
    (c : Conformance) (ext_ids : List GoString)
    → Nodup c.conformance
    → Nodup (with_extensions c ext_ids).conformance
unfolding with_extensions
with_extensions-Nodup c ext_ids h =
    let (prefix, nodup, mem) = add_extensions_lem c.conformance ext_ids in nodup h
