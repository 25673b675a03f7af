-- ===== src/Store/Sql/IpRange/HostBits.antt =====
-- internal/store/mysql.go: the loop that sets the host bits of a range of sixteen bytes.
use native.Mathlib.Nat.{
  add-div_right, add-mul-div_left, div-div-eq-div-mul, one-le-pow, pow-succ', mul_assoc,
}
use mathlib.Core.Path.{subst}
use go_rdap_server.Base.{
  ◌≡◌, refl, sym, ap, ◌∙◌, ◌≢◌, ℕ, zero, suc, ◌+◌, ◌-◌, ◌*◌, ◌/◌, ◌%◌, ◌^◌, ◌≤◌, ◌<◌, List, [], ◌∷◌,
  length, arith, if◌then◌else◌, ltb, ◌==◌, Bool-cases, inl, inr,
}
use go_rdap_server.Store.Sql.IpRange.{
  with_bit, update, set_host_bits, range_of, prefix6, IpRange, range4, range6,
}

with_bit-same : (k b : ℕ) → (with_bit k b / 2 ^ k) % 2 ≡ 1
unfolding with_bit
with_bit-same k b =
    let positive : 0 < 2 ^ k = one-le-pow k 2 (omega arith) in
    ground (arith, add-div_right b positive)

-- 2 ^ k as a multiple of twice a smaller power.
pow-split : (j d : ℕ) → 2 ^ (j + suc d) ≡ 2 ^ j * (2 * 2 ^ d)
pow-split zero d = ap (λ i. 2 ^ i) {x = 0 + suc d} (omega arith) ∙ pow-succ' 2 d ∙ omega arith
pow-split (suc j) d =
    ap (λ i. 2 ^ i) {x = suc j + suc d} {y = suc (j + suc d)} (omega arith)
    ∙ pow-succ' 2 (j + suc d)
    ∙ ap (λ x. 2 * x) (pow-split j d)
    ∙ sym (mul_assoc 2 (2 ^ j) (2 * 2 ^ d))
    ∙ ap (λ x. x * (2 * 2 ^ d)) (sym (pow-succ' 2 j))

with_bit-above : (j d b : ℕ) → ((b + 2 ^ (j + suc d)) / 2 ^ j) % 2 ≡ (b / 2 ^ j) % 2
with_bit-above j d b =
    let positive : 0 < 2 ^ j = one-le-pow j 2 (omega arith) in
    rw (pow-split j d, add-mul-div_left b (2 * 2 ^ d) positive) (omega arith)

with_bit-below :
    (k d b : ℕ)
    → (b / 2 ^ k) % 2 ≡ 0
    → ((b + 2 ^ k) / 2 ^ (k + suc d)) % 2 ≡ (b / 2 ^ (k + suc d)) % 2
with_bit-below k d b clear =
    let positive : 0 < 2 ^ k = one-le-pow k 2 (omega arith) in
    let halves : (b / 2 ^ k + 1) / 2 ≡ b / 2 ^ k / 2 = omega (arith, clear) in
    rw (pow-split k d) (
      ap (λ x. x % 2)
        (sym (div-div-eq-div-mul (b + 2 ^ k) (2 ^ k) (2 * 2 ^ d))
          ∙ ap (λ x. x / (2 * 2 ^ d)) (add-div_right b positive)
          ∙ sym (div-div-eq-div-mul (b / 2 ^ k + 1) 2 (2 ^ d))
          ∙ ap (λ x. x / 2 ^ d) halves
          ∙ div-div-eq-div-mul (b / 2 ^ k) 2 (2 ^ d)
          ∙ div-div-eq-div-mul b (2 ^ k) (2 * 2 ^ d)))

with_bit-other : (k j b : ℕ) → k ≢ j → (with_bit k b / 2 ^ j) % 2 ≡ (b / 2 ^ j) % 2
unfolding with_bit
with_bit-other k j b differ =
    let above : j < k → ((b + 2 ^ k) / 2 ^ j) % 2 ≡ (b / 2 ^ j) % 2 = λ h.
      subst (λ i. ((b + 2 ^ i) / 2 ^ j) % 2 ≡ (b / 2 ^ j) % 2) {x = j + suc (k - j - 1)}
        (omega (arith, h)) (with_bit-above j (k - j - 1) b) in
    let below : k < j → (b / 2 ^ k) % 2 ≡ 0 → ((b + 2 ^ k) / 2 ^ j) % 2 ≡ (b / 2 ^ j) % 2 = λ h.
      subst (λ i. (b / 2 ^ k) % 2 ≡ 0 → ((b + 2 ^ k) / 2 ^ i) % 2 ≡ (b / 2 ^ i) % 2)
        {x = k + suc (j - k - 1)} (omega (arith, h)) (with_bit-below k (j - k - 1) b) in
    ground (arith, above, below)

-- The byte at an index, 0 behind the end.
unfoldable pub byte_at : ℕ → List ℕ → ℕ
byte_at i [] = 0
byte_at zero (b ∷ bs) = b
byte_at (suc i) (b ∷ bs) = byte_at i bs

byte_at-update-same :
    (i : ℕ) (f : ℕ → ℕ) (bs : List ℕ) → i < length bs → byte_at i (update i f bs) ≡ f (byte_at i bs)
unfolding byte_at
byte_at-update-same i f [] h = absurd (omega (arith, h))
byte_at-update-same zero f (b ∷ bs) h = refl
byte_at-update-same (suc i) f (b ∷ bs) h = byte_at-update-same i f bs (omega (arith, h))

byte_at-update-other :
    (i j : ℕ) (f : ℕ → ℕ) (bs : List ℕ) → i ≢ j → byte_at j (update i f bs) ≡ byte_at j bs
unfolding byte_at
byte_at-update-other zero j f [] h = refl
byte_at-update-other (suc i) j f [] h = refl
byte_at-update-other zero zero f (b ∷ bs) h = absurd (h refl)
byte_at-update-other zero (suc j) f (b ∷ bs) h = refl
byte_at-update-other (suc i) zero f (b ∷ bs) h = refl
byte_at-update-other (suc i) (suc j) f (b ∷ bs) h =
    byte_at-update-other i j f bs (λ e. h (ap suc e))

length-update : (i : ℕ) (f : ℕ → ℕ) (bs : List ℕ) → length (update i f bs) ≡ length bs
length-update zero f [] = refl
length-update (suc i) f [] = refl
length-update zero f (b ∷ bs) = refl
length-update (suc i) f (b ∷ bs) = ap suc (length-update i f bs)

length-set_host_bits : (n : ℕ) (bs : List ℕ) → length (set_host_bits n bs) ≡ length bs
unfolding set_host_bits
length-set_host_bits zero bs = refl
length-set_host_bits (suc i) bs =
    length-update (15 - i / 8) (with_bit (i % 8)) (set_host_bits i bs) ∙ length-set_host_bits i bs

-- Bit j of an address of sixteen bytes, the lowest being bit 0 of the last byte.
unfoldable pub bit : ℕ → List ℕ → ℕ
unfolding byte_at
bit j bs = (byte_at (15 - j / 8) bs / 2 ^ (j % 8)) % 2

-- After n rounds of the loop the n lowest bits are set and the others are as they were.
bit-set_host_bits :
    (n j : ℕ) (bs : List ℕ)
    → length bs ≡ 16
    → n ≤ 128
    → j < 128
    → bit j (set_host_bits n bs) ≡ (if ltb j n then 1 else bit j bs)
unfolding bit set_host_bits
bit-set_host_bits zero j bs sixteen few small = ground arith
bit-set_host_bits (suc i) j bs sixteen few small =
    let before = set_host_bits i bs in
    let rest = bit-set_host_bits i j bs sixteen (omega (arith, few)) small in
    let size : length before ≡ 16 = length-set_host_bits i bs ∙ sixteen in
    let set = with_bit (i % 8) in
    elim (Bool-cases (15 - i / 8 == 15 - j / 8)) [
      | inr apart ↦
          let other : byte_at (15 - j / 8) (update (15 - i / 8) set before)
              ≡ byte_at (15 - j / 8) before =
            byte_at-update-other (15 - i / 8) (15 - j / 8) set before (ground (arith, apart)) in
          rw other (ground (arith, rest, apart))
      | inl together ↦
          let index : 15 - i / 8 ≡ 15 - j / 8 = ground (arith, together) in
          let written : byte_at (15 - j / 8) (update (15 - i / 8) set before)
              ≡ set (byte_at (15 - j / 8) before) =
            subst (λ k. byte_at k (update (15 - i / 8) set before) ≡ set (byte_at k before)) index
              (byte_at-update-same (15 - i / 8) set before (omega (arith, size))) in
          rw written (elim (Bool-cases (i % 8 == j % 8)) [
            | inl same ↦
                let bit_same : i % 8 ≡ j % 8 = ground (arith, same) in
                subst
                  (λ k.
                    (with_bit k (byte_at (15 - j / 8) before) / 2 ^ (j % 8)) % 2
                    ≡ (if ltb j (suc i) then 1 else bit j bs))
                  (sym bit_same)
                  (with_bit-same (j % 8) (byte_at (15 - j / 8) before)
                    ∙ ground (arith, bit_same, index))
            | inr differ ↦
                rw
                  (with_bit-other (i % 8) (j % 8) (byte_at (15 - j / 8) before)
                    (ground (arith, differ)))
                  (ground (arith, rest, differ, index))
          ])
    ]

abbrev pub start_bytes : IpRange → List ℕ
start_bytes (range4 start end) = []
start_bytes (range6 start end) = start

abbrev pub end_bit : ℕ → IpRange → ℕ
end_bit j (range4 start end) = 0
end_bit j (range6 start end) = bit j end

-- The range of a prefix of sixteen bytes begins at the address, and its end has the bits behind the
-- prefix set and the bits of the prefix as they are.
pub range_of-host_bits :
    (bytes : List ℕ) (bits j : ℕ)
    → length bytes ≡ 16
    → bits ≤ 128
    → j < 128
    → (start_bytes (range_of (prefix6 bytes bits)) ≡ bytes)
      × (end_bit j (range_of (prefix6 bytes bits))
          ≡ (if ltb j (128 - bits) then 1 else bit j bytes))
unfolding range_of
range_of-host_bits bytes bits j sixteen few small =
    (refl, bit-set_host_bits (128 - bits) j bytes sixteen (omega arith) small)
