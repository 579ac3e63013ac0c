-- ===== src/Acp.antt =====
-- The ACP protocol over stdio: src/acp.
pub mod Framing
