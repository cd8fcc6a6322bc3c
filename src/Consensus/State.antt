-- ===== src/Consensus/State.antt =====
-- src/Consensus/Consensus.hpp and ConsensusParams.hpp: the state of the consensus. Peers, transaction
-- sets and transactions are named by the numbers whose hexadecimal digits the program uses, so a
-- pointer to a transaction is named by its hash. Times of the steady clock are in nanoseconds, and
-- their quotient is a ratio. The wrapper is a parameter.
use pqblockchain.Prelude.{ℕ, ◌*◌, Bool, true, false, not, ◌&&◌, none, some, List, [], length, ◌==◌}
use pqblockchain.Prelude.Map.{Map}
use pqblockchain.Exceptions.{Result}
use pqblockchain.Transaction.{Transaction}
use pqblockchain.Transaction.Set.{TransactionSet, find}
use pqblockchain.Block.{Block, BlockHeader, null_block}
use pqblockchain.Proposal.OfBlock.{BlockProposal}
use pqblockchain.Proposal.OfTxSet.{TxSetProposal}
use pqblockchain.Proposal.OfTxSet
use pqblockchain.Consensus.Dispute.{Dispute, Ratio}

-- `enum class ConsensusPhase`.
pub data ConsensusPhase : Type 0 where
  open_phase establish accepted : ConsensusPhase

pub record CProposal : Type 0 where
  pub prev_block_id : ℕ
  pub tx_set_id : ℕ
  pub time : ℕ
  pub seq : ℕ

pub record CTxSet : Type 0 where
  pub set : TransactionSet
  pub set_id : ℕ
  pub time : ℕ

-- `CTxSet::exists`: the set compares senders and sequence numbers.
unfoldable pub exists : Transaction → CTxSet → Bool
exists tx s = elim (find tx s.set) [ none ↦ false | some _ ↦ true ]

-- `class ConsensusResult`.
pub record ConsensusResult : Type 0 where
  pub txns : TransactionSet
  pub compares : List ℕ
  pub tx_proposal : TxSetProposal
  pub disputes : Map Dispute
  pub round_time : ℕ

-- `ConsensusResult::reset`.
abbrev pub reset : ConsensusResult
reset = record {
  txns = [];
  compares = [];
  tx_proposal = OfTxSet.null_proposal;
  disputes = [];
  round_time = 0;
}

-- `ConsensusResult::isSet`.
unfoldable pub is_set : ConsensusResult → Bool
is_set r = not (length r.txns == 0) && not ((r.tx_proposal).tx_set_id == 0)

-- `class Consensus`, without the pointer to the wrapper.
pub record Consensus : Type 0 where
  pub phase : ConsensusPhase
  pub curr_block : Block
  pub curr_block_id : ℕ
  pub prev_block : Block
  pub prev_block_id : ℕ
  pub result : ConsensusResult
  pub curr_peer_proposals : Map CProposal
  pub acquired_sets : Map CTxSet
  pub converge : Ratio
  pub prev_round_time : ℕ
  pub open_time : ℕ
  pub close_time : ℕ

-- A time of the steady clock, by its milliseconds.
abbrev pub ms : ℕ → ℕ
ms n = n * 1000000

-- `Consensus::beginConsensus`.
unfoldable pub begin_consensus : ℕ → Consensus → Consensus
begin_consensus now s = record s {
  phase = open_phase;
  result = reset;
  converge = record { num = 0; den = 1 };
  open_time = now;
  curr_peer_proposals = [];
  acquired_sets = [];
}

-- The constructor of `Consensus`.
unfoldable pub new_consensus : ℕ → ℕ → Consensus
new_consensus genesis_block_hash now = begin_consensus now (record {
  phase = open_phase;
  curr_block = null_block;
  curr_block_id = 0;
  prev_block = null_block;
  prev_block_id = genesis_block_hash;
  result = reset;
  curr_peer_proposals = [];
  acquired_sets = [];
  converge = record { num = 0; den = 1 };
  prev_round_time = ms 15000;
  open_time = now;
  close_time = 0;
})

-- What the consensus asks of `ConsensusWrapper`, whose state is `W`.
pub record Wrapper (W : Type 0) : Type 0 where
  pub get_preferred : W → Result (ℕ × BlockHeader)
  pub get_current_transaction_set : TransactionSet → W → TransactionSet
  pub get_unl_count : W → ℕ
  pub share_tx_set : TxSetProposal → W → Result (TxSetProposal × W)
  pub share_block : BlockProposal → W → Result W
  pub add_block_proposal_to_chain : BlockProposal → ℕ → W → Result (W × Bool)
  pub add_block_header_to_chain : Block → ℕ → W → Result (W × Bool)
  pub execute_block : Block → W → Result W
