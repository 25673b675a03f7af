-- ===== src/Tests.antt =====
-- The theorems at concrete inputs.
mod Data
mod Access
mod Registry
mod Protocol
mod Sql
mod Process
