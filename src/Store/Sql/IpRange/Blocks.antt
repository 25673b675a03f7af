-- ===== src/Store/Sql/IpRange/Blocks.antt =====
-- internal/store/mysql.go: the range of a prefix of four bytes.
use native.Mathlib.Nat.{
  one-le-pow, pow-le-pow_right, div-add-mod, div-eq_of_lt-le, mul-mod_right, mul-div_right,
  lt-mul-div-succ, mul-div-le,
}
use mathlib.Core.Path.{subst}
use go_rdap_server.Base.{◌≡◌, ap, sym, ◌∙◌, ◌↔◌, ℕ, ◌+◌, ◌-◌, ◌*◌, ◌/◌, ◌%◌, ◌^◌, ◌≤◌, ◌<◌, arith}
use go_rdap_server.Store.Sql.IpRange.{
  prefix4, IpRange, range4, range6, big_endian, end_of, range_of, masked,
}

big_endian-bound :
    (a b c d : ℕ) → a < 256 → b < 256 → c < 256 → d < 256 → big_endian a b c d < 2 ^ 32
unfolding big_endian
big_endian-bound a b c d ha hb hc hd = omega arith

-- No sum wraps around on 64 bits.
end_of-eq : (start h : ℕ) → start < 2 ^ 32 → h ≤ 32 → end_of start h ≡ start + 2 ^ h - 1
unfolding end_of
end_of-eq start h small few =
    let positive : 1 ≤ 2 ^ h = one-le-pow h 2 (omega arith) in
    let bound : 2 ^ h ≤ 2 ^ 32 = pow-le-pow_right (omega arith) few in
    omega (arith, positive, bound)

-- A block of m numbers that begins at a multiple of m holds the numbers with its quotient.
block_iff :
    (start m x : ℕ)
    → 0 < m
    → start % m ≡ 0
    → ((start ≤ x) × (x ≤ start + m - 1)) ↔ (x / m ≡ start / m)
block_iff start m x positive aligned = (
  λ (above, below).
      div-eq_of_lt-le m (omega (arith, div-add-mod start m)) (omega (arith, div-add-mod start m)),
  λ same.
      let lower : m * (start / m) ≤ x = subst (λ q. m * q ≤ x) same (mul-div-le x m) in
      let upper : x < m * (start / m + 1) =
        subst (λ q. x < m * (q + 1)) same (lt-mul-div-succ x positive) in
      (omega (arith, div-add-mod start m), omega (arith, div-add-mod start m)),
)

abbrev pub Holds : IpRange → ℕ → Type 0
Holds (range4 start end) x = (start ≤ x) × (x ≤ end)
Holds (range6 start end) x = ⊥

-- The range of a masked prefix of n bits of an address of four bytes begins at the address and has
-- exactly the addresses that agree with it on the bits of the prefix.
pub range_of-block :
    (a b c d bits x : ℕ)
    → a < 256
    → b < 256
    → c < 256
    → d < 256
    → bits ≤ 32
    → big_endian a b c d % 2 ^ (32 - bits) ≡ 0
    → Holds (range_of (prefix4 a b c d bits)) x
      ↔ (x / 2 ^ (32 - bits) ≡ big_endian a b c d / 2 ^ (32 - bits))
unfolding range_of
range_of-block a b c d bits x ha hb hc hd few aligned =
    rw
      (end_of-eq (big_endian a b c d) (32 - bits) (big_endian-bound a b c d ha hb hc hd)
        (omega arith))
      (block_iff (big_endian a b c d) (2 ^ (32 - bits)) x (one-le-pow (32 - bits) 2 (omega arith))
        aligned)

-- The number without its rest has the same quotient and no rest.
without_rest : (n m : ℕ) → 0 < m → ((n - n % m) % m ≡ 0) × ((n - n % m) / m ≡ n / m)
without_rest n m positive =
    let multiple : n - n % m ≡ m * (n / m) = omega (arith, div-add-mod n m) in
    (rw multiple (mul-mod_right m (n / m)), rw multiple (mul-div_right (n / m) positive))

number-bytes :
    (n : ℕ)
    → n < 2 ^ 32
    → big_endian (n / 2 ^ 24) ((n / 2 ^ 16) % 256) ((n / 2 ^ 8) % 256) (n % 256) ≡ n
unfolding big_endian
number-bytes n small = omega arith

-- The range that ipRange gives for a prefix of n bits of an address of four bytes, whether or not it
-- is masked, has exactly the addresses that agree with it on the bits of the prefix.
pub range_of-masked :
    (a b c d bits x : ℕ)
    → a < 256
    → b < 256
    → c < 256
    → d < 256
    → bits ≤ 32
    → Holds (range_of (masked (prefix4 a b c d bits))) x
      ↔ (x / 2 ^ (32 - bits) ≡ big_endian a b c d / 2 ^ (32 - bits))
unfolding masked
range_of-masked a b c d bits x ha hb hc hd few =
    let n = big_endian a b c d in
    let m = n - n % 2 ^ (32 - bits) in
    let bound = big_endian-bound a b c d ha hb hc hd in
    let small : m < 2 ^ 32 = omega (arith, bound) in
    let same = number-bytes m small in
    let (aligned, quotient) =
      without_rest n (2 ^ (32 - bits)) (one-le-pow (32 - bits) 2 (omega arith)) in
    let block =
      range_of-block (m / 2 ^ 24) ((m / 2 ^ 16) % 256) ((m / 2 ^ 8) % 256) (m % 256) bits x
        (omega (arith, small)) (omega arith) (omega arith) (omega arith) few
        (ap (λ k. k % 2 ^ (32 - bits)) same ∙ aligned) in
    let end = ap (λ k. k / 2 ^ (32 - bits)) same ∙ quotient in
    (λ h. block.0 h ∙ end, λ h. block.1 (h ∙ sym end))
