-- ===== src/Economy.antt =====
-- What running agents costs: src/economy.
pub mod Fleet
