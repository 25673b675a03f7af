-- ===== src/Base/Number/Laws.antt =====
-- A number that is printed and parsed.
use Prim.Native.Nat.{ℕ, zero, suc, ◌+◌, ◌-◌, ◌*◌, ◌/◌, ◌%◌, ◌^◌, ◌<◌}
use mathlib.Core.Path.{◌≡◌, refl, ◌∙◌, ap}
use mathlib.Core.Logic.{inl, inr}
use mathlib.Core.List.{[], ◌∷◌}
use mathlib.Core.Option.{some}
use native.Mathlib.Omega.{arith}
use go_rdap_server.Base.Tests.{ltb, Bool-cases}
use go_rdap_server.Base.Text.{GoString}
use go_rdap_server.Base.Number.{
  digits_from, decimal, is_digit, digits_value, parse_digits, parse_uint32,
}

digit-value :
    (a n d : ℕ) (acc : GoString)
    → d < 10
    → n ≡ a * 10 + d
    → digits_value a ((48 + d) ∷ acc) ≡ digits_value n acc
unfolding digits_value is_digit
digit-value a n d acc h e =
    ground
      (arith, ap (λ x. digits_value x acc) {x = a * 10 + (48 + d - 48)} {y = n} (omega (arith, e)))

-- The value of the digits, once there are enough rounds.
digits_from-value :
    (f n : ℕ) (acc : GoString) → n < f → digits_value 0 (digits_from f n acc) ≡ digits_value n acc
unfolding digits_from
digits_from-value zero n acc h = absurd (omega (arith, h))
digits_from-value (suc f) n acc h = elim (Bool-cases (ltb n 10)) [
  | inl e ↦ rw e (digit-value 0 n (n % 10) acc (omega arith) (ground (arith)))
  | inr e ↦ rw e (
      digits_from-value f (n / 10) ((48 + n % 10) ∷ acc) (ground (arith))
      ∙ digit-value (n / 10) n (n % 10) acc (omega arith) (omega arith))
]

parse-value :
    (f n : ℕ) (acc : GoString)
    → parse_digits (digits_from (suc f) n acc) ≡ digits_value 0 (digits_from (suc f) n acc)
unfolding parse_digits digits_from
parse-value zero n acc = ground arith
parse-value (suc f) n acc = elim (Bool-cases (ltb n 10)) [
  | inl e ↦ rw e refl
  | inr e ↦ rw e (parse-value f (n / 10) ((48 + n % 10) ∷ acc))
]

-- The decimal text of a number of 32 bits is parsed as the number.
pub parse_uint32-decimal : (n : ℕ) → n < 2 ^ 32 → parse_uint32 (decimal n) ≡ some n
unfolding parse_uint32 decimal digits_value
parse_uint32-decimal n h =
    rw (parse-value n n [] ∙ digits_from-value (suc n) n [] (omega arith)) (ground (arith, h))
