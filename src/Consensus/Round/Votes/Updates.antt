-- ===== src/Consensus/Round/Votes/Updates.antt =====
-- `updateProposals` removes the peers with old positions and leaves the votes on every dispute settled:
-- src/Consensus/Consensus.cpp.
use pqblockchain.Prelude.{All, none, ℕ, ◌≡◌}
use pqblockchain.Prelude.Map.{Map, lookup}
use pqblockchain.Transaction.Set
use pqblockchain.Consensus.Dispute.{Dispute}
use pqblockchain.Consensus.State.{Consensus}

-- Nobody's vote by that name.
abbrev pub HasNoVote : ℕ → Map Dispute → Type 0
HasNoVote k disputes = All (λ d. lookup k (d.1).votes ≡ none) disputes
