-- ===== src/DataAccess.antt =====
-- The data-access classes of the payment service.
pub mod Rows
pub mod Payments
pub mod Idempotency
pub mod Outbox
pub mod Migrations
