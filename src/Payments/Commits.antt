-- ===== src/Payments/Commits.antt =====
-- What a transaction of `create` or `capture` has done when its body resolves.
pub mod Steps
pub mod Create
pub mod Capture
