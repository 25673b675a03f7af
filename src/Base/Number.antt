-- ===== src/Base/Number.antt =====
-- Go's int as an integer, and the decimal text of numbers.
pub mod Laws
use Prim.Native.Nat.{ℕ, zero, suc, ◌+◌, ◌-◌, ◌*◌, ◌/◌, ◌%◌, ◌^◌}
use mathlib.Core.Bool.{Bool, true, false, ◌&&◌, ◌||◌}
use mathlib.Core.List.{List, [], ◌∷◌, ◌++◌}
use mathlib.Core.Option.{Option, none, some}
use go_rdap_server.Base.Tests.{ltb, leb, ◌==◌, if◌then◌else◌}
use go_rdap_server.Base.Text.{GoString}

-- `negsuc n` is -(n + 1).
pub data ℤ : Type 0 where
  pos : ℕ → ℤ
  negsuc : ℕ → ℤ

-- n > 0
abbrev pub is_positive : ℤ → Bool
is_positive (pos n) = ltb 0 n
is_positive (negsuc n) = false

-- a <= b
abbrev pub int_leb : ℤ → ℤ → Bool
int_leb (pos a) (pos b) = leb a b
int_leb (pos a) (negsuc b) = false
int_leb (negsuc a) (pos b) = true
int_leb (negsuc a) (negsuc b) = leb b a

-- n == 0
abbrev pub is_zero : ℤ → Bool
is_zero (pos n) = n == 0
is_zero (negsuc n) = false

-- a == b
abbrev pub int_eq : ℤ → ℤ → Bool
int_eq (pos a) (pos b) = a == b
int_eq (negsuc a) (negsuc b) = a == b
int_eq a b = false

-- The natural number of an int that is not negative.
abbrev pub to_nat : ℤ → ℕ
to_nat (pos n) = n
to_nat (negsuc n) = 0

-- The digits of n in front of the text; the fuel n + 1 is enough, since n / 10 < n for 0 < n.
unfoldable pub digits_from : ℕ → ℕ → GoString → GoString
digits_from zero n acc = acc
digits_from (suc f) n acc =
    let acc' = (48 + n % 10) ∷ acc in
    let rest = digits_from f (n / 10) acc' in if ltb n 10 then acc' else rest

-- strconv.Itoa and %d, for a number that is not negative
unfoldable pub decimal : ℕ → GoString
unfolding digits_from
decimal n = digits_from (suc n) n []

unfoldable pub show_int : ℤ → GoString
show_int (pos n) = decimal n
show_int (negsuc n) = b'-' ∷ decimal (suc n)

unfoldable pub is_digit : ℕ → Bool
is_digit c = leb b'0' c && leb c b'9'

unfoldable pub digits_value : ℕ → GoString → Option ℕ
digits_value n [] = some n
digits_value n (c ∷ s) =
    let rest = digits_value (n * 10 + (c - 48)) s in if is_digit c then rest else none

unfoldable pub parse_digits : GoString → Option ℕ
unfolding digits_value
parse_digits [] = none
parse_digits (c ∷ s) = digits_value 0 (c ∷ s)

abbrev pub below : ℕ → Option ℕ → Option ℕ
below bound none = none
below bound (some n) = if ltb n bound then some n else none

-- strconv.ParseUint(s, 10, 32)
unfoldable pub parse_uint32 : GoString → Option ℕ
unfolding parse_digits
parse_uint32 s = below (2 ^ 32) (parse_digits s)

abbrev pub negate : ℕ → ℤ
negate zero = pos 0
negate (suc n) = negsuc n

abbrev pub signed : (ℕ → ℤ) → Option ℕ → Option ℤ
signed f none = none
signed f (some n) = some (f n)

-- strconv.Atoi, for the int of 64 bits
unfoldable pub atoi : GoString → Option ℤ
unfolding parse_digits
atoi [] = none
atoi (c ∷ s) =
    if c == b'-'
    then signed negate (below (2 ^ 63 + 1) (parse_digits s))
    else if c == b'+'
    then signed pos (below (2 ^ 63) (parse_digits s))
    else signed pos (below (2 ^ 63) (parse_digits (c ∷ s)))
