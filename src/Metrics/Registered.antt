-- ===== src/Metrics/Registered.antt =====
-- internal/metrics/metrics.go: what the registration leaves in the registry.
use mathlib.Core.Path.{subst}
use go_rdap_server.Base.{
  ◌≡◌, refl, sym, ◌⊎◌, inl, inr, Bool, true, not, ◌&&◌, Option, some, List, [], ◌∷◌, In, arith,
  GoString, str_eq,
}
use go_rdap_server.Rdap.Conformance.{seen}
use go_rdap_server.Rdap.Conformance.Laws.{seen_iff}
use go_rdap_server.Metrics.{Collector, collectors, must_register, init}

abbrev names_of : List Collector → List GoString
names_of [] = []
names_of (c ∷ cs) = c.name ∷ names_of cs

unfoldable distinct : List GoString → Bool
distinct [] = true
distinct (n ∷ ns) = not (seen n ns) && distinct ns

-- The registry accepts a collector whose name it does not have, and has it afterwards.
abbrev pub Accepts : {R : Type 0} → (Collector → R → Option R) → (R → List GoString) → Type 0
Accepts {R} register names =
    (c : Collector) (r : R)
    → ¬ In c.name (names r)
    → (s : R) × (register c r ≡ some s) × (names s ≡ c.name ∷ names r)

distinct-cons :
    (n : GoString) (ns : List GoString)
    → distinct (n ∷ ns) ≡ true
    → (¬ In n ns) × (distinct ns ≡ true)
unfolding distinct
distinct-cons n ns d = (λ m. ground (arith, (seen_iff n ns).1 m), ground arith)

fresh-cons :
    (name : GoString) (ns old now : List GoString)
    → now ≡ name ∷ old
    → ¬ In name ns
    → ((n : GoString) → In n ns → ¬ In n old)
    → (n : GoString) → In n ns
    → ¬ In n now
fresh-cons name ns old now e apart fresh n m k = elim (subst (In n) e k) [
  | inl same ↦ apart (subst (λ x. In x ns) same m)
  | inr before ↦ fresh n m before
]

module _ {R : Type 0} (register : Collector → R → Option R) (names : R → List GoString)
    (accepts : Accepts register names) where
  must_register-names :
      (cs : List Collector) (r : R)
      → distinct (names_of cs) ≡ true
      → ((n : GoString) → In n (names_of cs) → ¬ In n (names r))
      → (s : R) × (must_register register cs r ≡ some s)
        × ((n : GoString) → (In n (names_of cs) ⊎ In n (names r)) → In n (names s))
  unfolding must_register distinct
  must_register-names [] r d fresh = (r, refl, λ n h. elim h [ inl m ↦ absurd m | inr m ↦ m ])
  must_register-names (c ∷ cs) r d fresh =
      let (t, registered, now) = accepts c r (fresh c.name (inl refl)) in
      let (alone, rest) = distinct-cons c.name (names_of cs) d in
      let (s, good, kept) =
        must_register-names cs t rest (
          fresh-cons c.name (names_of cs) (names r) (names t) now alone (λ n m. fresh n (inr m))) in
      (
        s,
        rw (registered, must_register) good,
        λ n h. kept n (elim h [
          | inl here ↦ elim here [
            | inl same ↦ inr (subst (In n) (sym now) (inl same))
            | inr later ↦ inl later
          ]
          | inr before ↦ inr (subst (In n) (sym now) (inr before))
        ]),
      )

  -- If none of their names is taken, the nine collectors are registered without a panic, beside
  -- what the registry had, and `up` is 1.
  pub init-registers :
      (r : R)
      → ((n : GoString) → In n (names_of collectors) → ¬ In n (names r))
      → (s : R) × (init register r ≡ some (s, 1))
        × ((n : GoString) → (In n (names_of collectors) ⊎ In n (names r)) → In n (names s))
  unfolding init distinct seen str_eq
  init-registers r fresh =
      let (s, good, kept) = must_register-names collectors r refl fresh in (s, rw good refl, kept)
