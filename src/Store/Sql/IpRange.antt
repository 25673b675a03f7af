-- ===== src/Store/Sql/IpRange.antt =====
-- internal/store/mysql.go: the numeric range of a prefix. The reading of a text by package net/netip
-- is a parameter: it gives the four bytes of the address, or its sixteen, and the bits.
pub mod Blocks
pub mod HostBits
use go_rdap_server.Base.{
  ℕ, zero, suc, ◌+◌, ◌-◌, ◌*◌, ◌/◌, ◌%◌, ◌^◌, List, [], ◌∷◌, ◌++◌, if◌then◌else◌, ◌==◌, Result, ok,
  err, GoString, str,
}
use go_rdap_server.Store.Sql.{map_ok}

pub data Prefix : Type 0 where
  prefix4 : ℕ → ℕ → ℕ → ℕ → ℕ → Prefix
  prefix6 : List ℕ → ℕ → Prefix

-- The versions "v4" and "v6" with the start and the end of the range.
pub data IpRange : Type 0 where
  range4 : ℕ → ℕ → IpRange
  range6 : List ℕ → List ℕ → IpRange

-- binary.BigEndian.Uint32
unfoldable pub big_endian : ℕ → ℕ → ℕ → ℕ → ℕ
big_endian a b c d = a * 2 ^ 24 + b * 2 ^ 16 + c * 2 ^ 8 + d

-- The four bytes of a number, and the bits of a prefix of it.
abbrev pub from_number : ℕ → ℕ → Prefix
from_number n bits = prefix4 (n / 2 ^ 24) ((n / 2 ^ 16) % 256) ((n / 2 ^ 8) % 256) (n % 256) bits

-- The bytes of an address from the i-th on, without the bits behind the prefix.
abbrev pub masked_bytes : ℕ → ℕ → List ℕ → List ℕ
masked_bytes i bits [] = []
masked_bytes i bits (b ∷ bs) = (b - b % 2 ^ (8 * suc i - bits)) ∷ masked_bytes (suc i) bits bs

-- prefix.Masked(): the bits behind those of the prefix become 0.
unfoldable pub masked : Prefix → Prefix
unfolding big_endian
masked (prefix4 a b c d bits) =
    let n = big_endian a b c d in from_number (n - n % 2 ^ (32 - bits)) bits
masked (prefix6 bytes bits) = prefix6 (masked_bytes 0 bits bytes) bits

-- start + (uint64(1) << hostBits) - 1, on 64 bits
unfoldable pub end_of : ℕ → ℕ → ℕ
end_of start host_bits = (start + 2 ^ host_bits % 2 ^ 64 + (2 ^ 64 - 1)) % 2 ^ 64

-- b | 1 << k, for a byte and a bit of it
unfoldable pub with_bit : ℕ → ℕ → ℕ
with_bit k b = if (b / 2 ^ k) % 2 == 1 then b else b + 2 ^ k

abbrev pub update : ℕ → (ℕ → ℕ) → List ℕ → List ℕ
update i f [] = []
update zero f (b ∷ bs) = f b ∷ bs
update (suc i) f (b ∷ bs) = b ∷ update i f bs

-- The rounds of the loop for i = 0, ..., n - 1.
unfoldable pub set_host_bits : ℕ → List ℕ → List ℕ
unfolding with_bit
set_host_bits zero bs = bs
set_host_bits (suc i) bs = update (15 - i / 8) (with_bit (i % 8)) (set_host_bits i bs)

unfoldable pub range_of : Prefix → IpRange
unfolding big_endian end_of set_host_bits
range_of (prefix4 a b c d bits) =
    let start = big_endian a b c d in range4 start (end_of start (32 - bits))
range_of (prefix6 bytes bits) = range6 bytes (set_host_bits (128 - bits) bytes)

module _ (quoted : GoString → GoString) (parse_prefix : GoString → Result GoString Prefix) where
  -- %q is a parameter too.
  abbrev pub invalid_cidr : {A : Type 0} → GoString → Result GoString A → Result GoString A
  invalid_cidr cidr (ok a) = ok a
  invalid_cidr cidr (err e) = err (str "invalid CIDR " ++ quoted cidr ++ str ": " ++ e)

  unfoldable pub ip_range : GoString → Result GoString IpRange
  unfolding range_of masked
  ip_range cidr =
      map_ok (λ prefix. range_of (masked prefix)) (invalid_cidr cidr (parse_prefix cidr))
