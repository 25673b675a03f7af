-- ===== src/Rdap.antt =====
-- internal/rdap: the types of RDAP responses, the notices, the conformance arrays, and the checks
-- of names. Fields keep the names of the Go structs; a field that Go calls `Type` is `kind`.
pub mod Models
pub mod Responses
pub mod Names
pub mod Conformance
pub mod Notices
pub mod Addresses
