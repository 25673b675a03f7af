-- ===== src/Rdap/Addresses.antt =====
-- internal/rdap/rdap.go: ValidateIP and ParseCIDR. The packages net and netip are parameters.
use go_rdap_server.Base.{
  Bool, true, false, not, ◌&&◌, Option, none, some, ◌++◌, if◌then◌else◌, Result, ok, err, GoString,
  str, ℤ, pos, int_eq,
}

pub record Netip (Addr : Type 0) : Type 0 where
  pub parse_addr : GoString → Option Addr
  pub is4 : Addr → Bool
  pub is4_in6 : Addr → Bool
  pub is6 : Addr → Bool

module _ {Addr : Type 0} (netip : Netip Addr) where
  abbrev pub is_version : ℤ → Addr → Bool
  is_version version addr =
      if int_eq version (pos 4) && (not (netip.is4 addr) && not (netip.is4_in6 addr))
      then false
      else if int_eq version (pos 6) && not (netip.is6 addr)
      then false
      else true

  unfoldable pub validate_ip : GoString → ℤ → Bool
  validate_ip s version = elim (netip.parse_addr s) [
    | none ↦ false
    | some addr ↦ is_version version addr
  ]

unfoldable pub parse_cidr :
    {Net : Type 0} → (GoString → Result GoString Net) → GoString → Result GoString Net
parse_cidr net_parse_cidr s = elim (net_parse_cidr s) [
  | err e ↦ err (str "invalid CIDR: " ++ e)
  | ok net ↦ ok net
]
