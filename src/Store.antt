-- ===== src/Store.antt =====
-- internal/store: the interface of the storage adapters, the in-memory adapter and the SQL adapters.
pub mod Interface
pub mod Memory
pub mod Rows
pub mod Sql
