-- ===== src/Consensus.antt =====
-- src/Consensus: the agreement on transaction sets and blocks.
pub mod Dispute
pub mod Agreement
pub mod State
pub mod Round
pub mod Thread
pub mod Wrapper
