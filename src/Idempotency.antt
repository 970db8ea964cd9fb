-- ===== src/Idempotency.antt =====
-- services/payment-service/src/services/idempotency
pub mod Canonical
pub mod Service
pub mod Decisions
mod Tests
