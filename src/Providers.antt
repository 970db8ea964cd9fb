-- ===== src/Providers.antt =====
-- Payment providers: the contract, the mock adapter and the registry.
pub mod Contract
pub mod Mock
pub mod Registry
