-- ===== src/Gateway.antt =====
-- services/api-gateway/src
pub mod Client
pub mod Controllers
mod Tests
