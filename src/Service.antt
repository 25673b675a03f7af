-- ===== src/Service.antt =====
-- internal/service: from the registry data to RDAP responses.
pub mod Extensions
pub mod JCard
pub mod Mapping
pub mod Queries
