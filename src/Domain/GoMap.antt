-- ===== src/Domain/GoMap.antt =====
-- Go's `map[string]V`, as an association list.
use go_rdap_server.Base.{
  ◌≡◌, refl, Option, none, some, List, [], ◌∷◌, arith, if◌then◌else◌, GoString, str_eq, str_eq_iff,
}

-- `K` is `GoString`, or a name for it.
abbrev pub Assoc : Type 0 → Type 0 → Type 0
Assoc K V = List (K × V)

module _ {V : Type 0} where
  -- v, ok := m[k]
  unfoldable pub lookup : GoString → Assoc GoString V → Option V
  lookup k [] = none
  lookup k ((j, v) ∷ m) = if str_eq j k then some v else lookup k m

  -- m[k] = v
  unfoldable pub put : GoString → V → Assoc GoString V → Assoc GoString V
  put k v [] = (k, v) ∷ []
  put k v ((j, w) ∷ m) = if str_eq j k then (k, v) ∷ m else (j, w) ∷ put k v m

  -- A write is read back at its key, and no other key is changed.
  pub lookup-put :
      (k j : GoString) (v : V) (m : Assoc GoString V)
      → lookup j (put k v m) ≡ (if str_eq k j then some v else lookup j m)
  unfolding lookup put
  lookup-put k j v [] = refl
  lookup-put k j v ((i, w) ∷ m) =
      ground (arith, str_eq_iff k j, str_eq_iff i k, str_eq_iff i j, lookup-put k j v m)
