-- ===== src/Whois.antt =====
-- internal/whois: the WHOIS gateway of port 43.
pub mod Types
pub mod Query
pub mod Lookup
pub mod Render
pub mod Gateway
pub mod Lifecycle
pub mod Connection
pub mod Privacy
