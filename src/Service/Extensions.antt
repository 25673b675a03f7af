-- ===== src/Service/Extensions.antt =====
-- internal/service/extensions.go, and the notice options of internal/service/service.go.
use go_rdap_server.Base.{
  Bool, Option, none, some, List, [], map, GoString, str, ℤ, is_empty, if◌then◌else◌,
}
use go_rdap_server.Domain.{Assoc}
use go_rdap_server.Config.{
  RdapConfig, Ttl0Config, ExtensionRemark, GeofeedConfig, TosConfig, CustomNoticeConfig,
  extensions_enabled,
}
use go_rdap_server.Rdap.Models.{Remark, Ttl0Data}
use go_rdap_server.Rdap.Notices.{NoticeOptions, CustomNotice}

pub record Extensions : Type 0 where
  pub ttl0 : Bool
  pub ttl0_domain : Assoc GoString ℤ
  pub ttl0_ns : Assoc GoString ℤ
  pub ttl0_remarks : List Remark
  pub geofeed1 : Bool
  pub geofeed_url : GoString
  pub cidr0 : Bool
  pub reverse_search : Bool

abbrev to_remark : ExtensionRemark → Remark
to_remark r = record { title = r.title; kind = []; description = r.description; links = [] }

abbrev with_ttl0 : Option Ttl0Config → Extensions → Extensions
with_ttl0 none e = e
with_ttl0 (some t) e = record e {
  ttl0_domain = t.domain;
  ttl0_ns = t.nameserver;
  ttl0_remarks = map to_remark t.remarks;
}

abbrev with_geofeed : Option GeofeedConfig → Extensions → Extensions
with_geofeed none e = e
with_geofeed (some g) e = record e { geofeed_url = g.url }

unfoldable pub extensions_from_config : RdapConfig → Extensions
extensions_from_config cfg = with_geofeed cfg.geofeed (
    with_ttl0 cfg.ttl0 (record {
      ttl0 = extensions_enabled cfg (str "ttl0");
      ttl0_domain = [];
      ttl0_ns = [];
      ttl0_remarks = [];
      geofeed1 = extensions_enabled cfg (str "geofeed1");
      geofeed_url = [];
      cidr0 = extensions_enabled cfg (str "cidr0");
      reverse_search = extensions_enabled cfg (str "reverse_search");
    }))

-- ttl0Data: nothing is emitted for an empty map.
unfoldable pub ttl0_data : Assoc GoString ℤ → List Remark → Option Ttl0Data
ttl0_data values remarks =
    if is_empty values then none else some (record { values = values; remarks = remarks })

abbrev to_custom : CustomNoticeConfig → CustomNotice
to_custom c = record { title = c.title; description = c.description; url = c.url; rel = c.rel }

abbrev with_tos : Option TosConfig → NoticeOptions → NoticeOptions
with_tos none opts = opts
with_tos (some t) opts = record opts {
  tos_title = t.title;
  tos_description = t.description;
  tos_url = t.url;
}

unfoldable pub notice_options_from_config : RdapConfig → NoticeOptions
notice_options_from_config cfg = with_tos cfg.tos (record {
  tos_title = [];
  tos_description = [];
  tos_url = [];
  custom = map to_custom cfg.custom_notices;
})
