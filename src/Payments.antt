-- ===== src/Payments.antt =====
-- services/payment-service/src/services/payments: the payment's state machine and the service.
pub mod Status
pub mod Commands
pub mod Service
pub mod Commits
pub mod Replies
pub mod Ownership
pub mod Fresh
pub mod Retry
pub mod Captured
mod Tests
