-- ===== src/Middleware/ClientIp/Spoofing.antt =====
-- Whose word counts for the client's address.
use go_rdap_server.Base.{
  ◌≡◌, refl, ◌↔◌, inl, inr, true, some, List, [], ◌∷◌, arith, GoString, Unicode, In, Bool-cases,
  Option-cases,
}
use go_rdap_server.Middleware.ClientIp.{
  Net, Request, peer_ip, parse_cidrs, any_contains, ip_allowed, client_ip, resolve_client,
}

module _ {Ip IpNet : Type 0} (u : Unicode) (net : Net Ip IpNet) where
  -- A peer is trusted if its address parses and one of the networks contains it.
  abbrev pub IsTrusted : List IpNet → GoString → Type 0
  IsTrusted trusted peer =
      (ip : Ip) × (n : IpNet) × (net.parse_ip peer ≡ some ip)
      × In n trusted
      × (net.contains n ip ≡ true)

  any_contains_sound :
      (ip : Ip) (ns : List IpNet)
      → any_contains u net ip ns ≡ true
      → (n : IpNet) × In n ns × (net.contains n ip ≡ true)
  unfolding any_contains
  any_contains_sound ip [] h = cc
  any_contains_sound ip (n ∷ ns) h = elim (Bool-cases (net.contains n ip)) [
    | inl hit ↦ (n, inl refl, hit)
    | inr miss ↦
        let (m, place, hit) = any_contains_sound ip ns (ground arith) in (m, inr place, hit)
  ]

  any_contains_complete :
      (ip : Ip) (n : IpNet) (ns : List IpNet)
      → In n ns
      → net.contains n ip ≡ true
      → any_contains u net ip ns ≡ true
  unfolding any_contains
  any_contains_complete ip n [] m h = absurd m
  any_contains_complete ip n (n' ∷ ns) (inl e) h = ground arith
  any_contains_complete ip n (n' ∷ ns) (inr m) h = ground (arith, any_contains_complete ip n ns m h)

  ip_allowed_sound :
      (trusted : List IpNet) (peer : GoString)
      → ip_allowed u net peer trusted ≡ true
      → IsTrusted trusted peer
  unfolding ip_allowed
  ip_allowed_sound [] peer h = cc
  ip_allowed_sound (n ∷ ns) peer h = elim (Option-cases (net.parse_ip peer)) [
    | inl e ↦ cc (rw (e, ip_allowed) at h)
    | inr (ip, e) ↦
        let (m, place, hit) = any_contains_sound ip (n ∷ ns) (rw (e, ip_allowed) at h) in
        (ip, m, e, place, hit)
  ]

  ip_allowed_complete :
      (trusted : List IpNet) (peer : GoString)
      → IsTrusted trusted peer
      → ip_allowed u net peer trusted ≡ true
  unfolding ip_allowed
  ip_allowed_complete [] peer (ip, m, e, place, hit) = absurd place
  ip_allowed_complete (n ∷ ns) peer (ip, m, e, place, hit) =
      rw (e, ip_allowed) (any_contains_complete ip m (n ∷ ns) place hit)

  -- The middleware trusts a peer exactly if its address parses and one of the trusted networks
  -- contains it.
  pub ip_allowed_iff :
      (trusted : List IpNet) (peer : GoString)
      → (ip_allowed u net peer trusted ≡ true) ↔ IsTrusted trusted peer
  ip_allowed_iff trusted peer = (ip_allowed_sound trusted peer, ip_allowed_complete trusted peer)

  -- Two requests from one untrusted peer resolve to the same address, and it is the peer's,
  -- whatever their forwarding headers say.
  pub headers_ignored :
      (cidrs : List GoString) (r r' : Request)
      → ¬ IsTrusted (parse_cidrs u net cidrs) (peer_ip u net r.remote_addr)
      → r'.remote_addr ≡ r.remote_addr
      → ((resolve_client u net cidrs r).1 ≡ peer_ip u net r.remote_addr)
        × ((resolve_client u net cidrs r').1 ≡ (resolve_client u net cidrs r).1)
        × ((resolve_client u net cidrs r').0.remote_addr
            ≡ (resolve_client u net cidrs r).0.remote_addr)
  unfolding resolve_client client_ip
  headers_ignored cidrs r r' h e =
      ground (arith, ip_allowed_sound (parse_cidrs u net cidrs) (peer_ip u net r.remote_addr))
