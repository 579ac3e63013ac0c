-- ===== src/Remote.antt =====
-- Remote control of a running agent: src/remote.
pub mod Approval
pub mod Veto
