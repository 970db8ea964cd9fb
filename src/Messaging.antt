-- ===== src/Messaging.antt =====
-- services/payment-service/src/messaging
pub mod Publisher
pub mod Message
pub mod Connections
pub mod Together
mod Tests
