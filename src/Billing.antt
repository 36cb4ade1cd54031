-- ===== src/Billing.antt =====
-- internal/billing: invoices, dunning, metering, usage reports and webhooks.
pub mod Plans
pub mod History
pub mod Pricing
pub mod Invoice
pub mod Account
pub mod Dunning
pub mod Webhook
pub mod Report
pub mod Metering
