-- ===== src/Service/Mapping/Network.antt =====
-- internal/service/service.go: IP networks. `parse_cidr` stands for net.ParseCIDR with what
-- cidr0FromCIDR reads of its result.
use go_rdap_server.Base.{
  not, ◌&&◌, Option, none, some, List, [], ◌∷◌, ◌++◌, if◌then◌else◌, GoString, str, str_eq, ℤ,
}
use go_rdap_server.Domain
use go_rdap_server.Domain.{Time}
use go_rdap_server.Rdap.Models.{Cidr0, Link, common, nil, IpNetwork, ip_network}
use go_rdap_server.Rdap.Notices.{link}
use go_rdap_server.Service.Extensions.{Extensions}
use go_rdap_server.Service.Mapping.{status_values, plain_header, self_link, event, format_time}

-- The address as text, that of To4() if the address is one of IPv4, and the ones of the mask.
pub record ParsedCidr : Type 0 where
  pub v4 : Option GoString
  pub address : GoString
  pub ones : ℤ

abbrev cidr0_entry : ParsedCidr → Cidr0
cidr0_entry p = elim p.v4 [
  | some a ↦ record { v4_prefix = a; v6_prefix = []; length = p.ones }
  | none ↦ record { v4_prefix = []; v6_prefix = p.address; length = p.ones }
]

module _ (parse_cidr : GoString → Option ParsedCidr) where
  unfoldable pub cidr0_from_cidr : GoString → Option Cidr0
  cidr0_from_cidr cidr = elim (parse_cidr cidr) [ none ↦ none | some p ↦ some (cidr0_entry p) ]

  -- The loop over n.CIDR.
  unfoldable pub cidr0_entries : List GoString → List Cidr0
  unfolding cidr0_from_cidr
  cidr0_entries [] = []
  cidr0_entries (c ∷ cs) = elim (cidr0_from_cidr c) [
    | none ↦ cidr0_entries cs
    | some e ↦ e ∷ cidr0_entries cs
  ]

  abbrev first_cidr : List GoString → GoString
  first_cidr [] = []
  first_cidr (c ∷ cs) = c

  abbrev geofeed_links : GoString → Option Extensions → List Link
  geofeed_links url none = []
  geofeed_links url (some ext) =
      if ext.geofeed1 && not (str_eq ext.geofeed_url [])
      then link url (str "geofeed") ext.geofeed_url (str "application/geofeed+csv") ∷ []
      else []

  abbrev cidr0_members : List GoString → Option Extensions → List Cidr0
  cidr0_members cidrs none = []
  cidr0_members cidrs (some ext) = if ext.cidr0 then cidr0_entries cidrs else []

  module _ (rfc3339 : Time → GoString) where
    unfoldable pub ip_network_to_rdap : Domain.IpNetwork → GoString → Option Extensions → IpNetwork
    unfolding cidr0_entries
    ip_network_to_rdap n base_url ext =
        let url = base_url ++ str "/ip/" ++ first_cidr n.cidr in
        ip_network
          (common
            (plain_header (str "ip network") n.handle (status_values n.status)
              (event (str "registration") (format_time rfc3339 n.metadata.created_at)
                ∷ event (str "last changed") (format_time rfc3339 n.metadata.updated_at)
                ∷ [])
              (self_link url ∷ geofeed_links url ext))
            nil)
          (record {
            start_address = n.start_address;
            end_address = n.end_address;
            ip_version = n.ip_version;
            cidr = n.cidr;
            name = n.name;
            kind = n.kind;
            country = n.country;
            parent_handle = [];
            cidr0_cidrs = cidr0_members n.cidr ext;
          })
