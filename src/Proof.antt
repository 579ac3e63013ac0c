-- ===== src/Proof.antt =====
-- Proofs of runs, and the queue of their receipts: src/proof.
pub mod Chain
pub mod ReceiptQueue
