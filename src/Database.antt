-- ===== src/Database.antt =====
-- The tables of internal/database/migrations and the effect of the SQL that the repositories send.
pub mod Accounts
pub mod Apart
pub mod Lookup
pub mod Requests
pub mod Sound
pub mod Tables
