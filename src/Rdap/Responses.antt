-- ===== src/Rdap/Responses.antt =====
-- internal/rdap/models.go: the top-level responses.
use go_rdap_server.Base.{ℕ, Bool, Option, List, GoString}
use go_rdap_server.Rdap.Models.{Conformance, Notice, Common, Entity, IpNetwork, Nameserver, Domain}

pub record ReverseSearchProperty : Type 0 where
  pub searchable_resource_type : GoString
  pub related_resource_type : GoString
  pub property : GoString

pub record ReverseSearchPropertiesMapping : Type 0 where
  pub property : GoString
  pub property_path : GoString

pub record DomainSearchResult : Type 0 where
  pub conformance : Conformance
  pub domain_search_results : List Domain
  pub notices : List Notice
  pub reverse_search_properties_mapping : List ReverseSearchPropertiesMapping

pub record EntitySearchResult : Type 0 where
  pub conformance : Conformance
  pub entity_search_results : List Entity
  pub notices : List Notice
  pub reverse_search_properties_mapping : List ReverseSearchPropertiesMapping

pub record NameserverSearchResult : Type 0 where
  pub conformance : Conformance
  pub nameserver_search_results : List Nameserver
  pub notices : List Notice
  pub reverse_search_properties_mapping : List ReverseSearchPropertiesMapping

pub record Farv1Provider : Type 0 where
  pub iss : GoString
  pub name : GoString
  pub default : Bool

pub record Farv1OpenIdcConfiguration : Type 0 where
  pub session_client_supported : Bool
  pub token_client_supported : Bool
  pub dnt_supported : Bool
  pub provider_discovery_supported : Bool
  pub issuer_identifier_supported : Bool
  pub implicit_token_refresh_supported : Bool
  pub open_idc_providers : List Farv1Provider

pub record Help : Type 0 where
  pub conformance : Conformance
  pub notices : List Notice
  pub reverse_search_properties : List ReverseSearchProperty
  pub farv1_open_idc_configuration : Option Farv1OpenIdcConfiguration

pub record EntityResponse : Type 0 where
  pub entity : Entity
  pub conformance : Conformance
  pub notices : List Notice

pub record NameserverResponse : Type 0 where
  pub nameserver : Nameserver
  pub conformance : Conformance
  pub notices : List Notice

pub record IpNetworkResponse : Type 0 where
  pub ip_network : IpNetwork
  pub conformance : Conformance
  pub notices : List Notice

pub record Autnum : Type 0 where
  pub common : Common
  pub start_autnum : ℕ
  pub end_autnum : ℕ
  pub name : GoString
  pub kind : GoString
  pub country : GoString

pub record AutnumResponse : Type 0 where
  pub autnum : Autnum
  pub conformance : Conformance
  pub notices : List Notice

pub record ErrorResponse : Type 0 where
  pub conformance : Conformance
  pub error_code : ℕ
  pub title : GoString
  pub description : List GoString
  pub notices : List Notice
