-- ===== src/Proposal.antt =====
-- src/Consensus/Proposal.hpp and Proposal.cpp: the signed proposals of blocks and of transaction
-- sets.
pub mod OfBlock
pub mod OfTxSet
mod Tests
