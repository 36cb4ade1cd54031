-- ===== src/Domain.antt =====
-- internal/domain/domain.go: the records that the store keeps and the services pass around.
pub mod Scalar
pub mod Access
pub mod Billing
pub mod Deploy
