-- ===== src/Outbox.antt =====
-- services/payment-service/src/services/outbox
pub mod Service
