-- ===== src/Middleware/ClientIp.antt =====
-- internal/middleware/clientip.go. What it uses of package net is a parameter, `Net`, over the types
-- of addresses and of networks.
pub mod Spoofing
use go_rdap_server.Base.{
  ℕ, Bool, true, false, ◌||◌, Option, none, some, List, [], ◌∷◌, if◌then◌else◌, GoString, str_eq,
  Unicode, trim_space, split,
}

pub record Net (Ip IpNet : Type 0) : Type 0 where
  pub split_host_port : GoString → Option (GoString × GoString)
  pub join_host_port : GoString → GoString → GoString
  pub parse_ip : GoString → Option Ip
  pub is_ipv4 : Ip → Bool
  -- &net.IPNet{IP: ip, Mask: net.CIDRMask(bits, bits)}
  pub full_network : Ip → ℕ → IpNet
  pub parse_cidr : GoString → Option IpNet
  pub contains : IpNet → Ip → Bool

-- What the middleware reads of a request.
pub record Request : Type 0 where
  pub remote_addr : GoString
  pub forwarded_for : GoString
  pub real_ip : GoString

-- The first part of the text, which strings.Split always has.
abbrev first_part : List GoString → GoString
first_part [] = []
first_part (x ∷ xs) = x

unfoldable pub client_most : Unicode → GoString → GoString
client_most u xff = if str_eq xff [] then [] else trim_space u (first_part (split b',' xff))

module _ {Ip IpNet : Type 0} (u : Unicode) (net : Net Ip IpNet) where
  unfoldable pub peer_ip : GoString → GoString
  peer_ip remote_addr = elim (net.split_host_port remote_addr) [
    | none ↦ remote_addr
    | some (host, port) ↦ host
  ]

  unfoldable pub remote_port : GoString → GoString
  remote_port remote_addr = elim (net.split_host_port remote_addr) [
    | none ↦ []
    | some (host, port) ↦ port
  ]

  -- One round of parseCIDRs: an address, a network, or nothing.
  unfoldable pub parse_entry : GoString → Option IpNet
  parse_entry text =
      let c = trim_space u text in
      if str_eq c [] then none else elim (net.parse_ip c) [
        | some ip ↦ some (net.full_network ip (if net.is_ipv4 ip then 32 else 128))
        | none ↦ net.parse_cidr c
      ]

  unfoldable pub parse_cidrs : List GoString → List IpNet
  unfolding parse_entry
  parse_cidrs [] = []
  parse_cidrs (c ∷ cs) = elim (parse_entry c) [
    | none ↦ parse_cidrs cs
    | some n ↦ n ∷ parse_cidrs cs
  ]

  unfoldable pub any_contains : Ip → List IpNet → Bool
  any_contains ip [] = false
  any_contains ip (n ∷ ns) = net.contains n ip || any_contains ip ns

  unfoldable pub ip_allowed : GoString → List IpNet → Bool
  unfolding any_contains
  ip_allowed ip [] = false
  ip_allowed ip (n ∷ ns) = elim (net.parse_ip ip) [
    | none ↦ false
    | some parsed ↦ any_contains parsed (n ∷ ns)
  ]

  abbrev real_ip_or : GoString → GoString → GoString
  real_ip_or ip peer = if str_eq ip [] then peer else ip

  unfoldable pub client_ip : List IpNet → Request → GoString
  unfolding peer_ip ip_allowed client_most
  client_ip trusted r =
      let peer = peer_ip r.remote_addr in
      if ip_allowed peer trusted
      then (if str_eq (client_most u r.forwarded_for) []
          then real_ip_or (trim_space u r.real_ip) peer
          else client_most u r.forwarded_for)
      else peer

  -- TrustedProxyClientIP: the request that the next handler gets, and the address in its context.
  unfoldable pub resolve_client : List GoString → Request → Request × GoString
  unfolding parse_cidrs client_ip remote_port
  resolve_client trusted_cidrs r =
      let ip = client_ip (parse_cidrs trusted_cidrs) r in
      (record r { remote_addr = net.join_host_port ip (remote_port r.remote_addr) }, ip)

  -- GetClientIP, for the address in the context, if there is one.
  unfoldable pub get_client_ip : Option GoString → GoString → GoString
  unfolding peer_ip
  get_client_ip none remote_addr = peer_ip remote_addr
  get_client_ip (some ip) remote_addr = if str_eq ip [] then peer_ip remote_addr else ip
