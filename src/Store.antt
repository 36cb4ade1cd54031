-- ===== src/Store.antt =====
-- internal/store: the in-memory store, a table for each kind of row.
pub mod State
pub mod Page
pub mod Session
pub mod Users
pub mod Tenants
pub mod Workloads
pub mod Releases
pub mod Tokens
pub mod AppConfig
pub mod Audit
pub mod Catalog
pub mod Billing
