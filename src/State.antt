-- ===== src/State.antt =====
-- internal/state: the SQLite store.
pub mod Tables
pub mod Store
pub mod Atomic
pub mod Members
pub mod Rows
pub mod Valid
pub mod Migrate
pub mod Open
