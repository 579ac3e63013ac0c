-- ===== src/Auth.antt =====
-- Authentication of events: src/auth.
pub mod NonceStore
pub mod VerifyEvent
