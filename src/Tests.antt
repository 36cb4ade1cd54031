-- ===== src/Tests.antt =====
-- Concrete inputs at which the theorems apply.
mod Data
mod Billing
mod Webhook
mod Services
mod Members
mod Tokens
mod Identity
mod Cluster
mod History
mod Domains
