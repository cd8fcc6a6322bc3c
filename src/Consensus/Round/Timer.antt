-- ===== src/Consensus/Round/Timer.antt =====
-- src/Consensus/Consensus.cpp: the operations of a round that use the wrapper. Each takes the time of
-- the steady clock or that of the system clock in seconds, where it reads them.
use pqblockchain.Prelude.{
  ℕ, ◌+◌, ◌-◌, ◌*◌, ◌%◌, ◌^◌, true, false, none, some, [], ◌∷◌, length, ltb, ◌==◌, if◌then◌else◌,
}
use pqblockchain.Prelude.Map.{Map, lookup, assign}
use pqblockchain.Exceptions.{Result, ok, ◌>>=◌}
use pqblockchain.Crypto.{Hash}
use pqblockchain.Transaction.Set.{TransactionSet}
use pqblockchain.Block.{Block, BlockHeader, null_block, null_body, get_block_hash}
use pqblockchain.Block
use pqblockchain.Merkle.{compute_tx_set_merkle_root}
use pqblockchain.Proposal.OfBlock.{BlockProposal}
use pqblockchain.Proposal.OfBlock
use pqblockchain.Proposal.OfTxSet.{TxSetProposal}
use pqblockchain.Consensus.Agreement.{have_consensus}
use pqblockchain.Consensus.State.{
  open_phase, establish, accepted, CProposal, CTxSet, ConsensusResult, Consensus, Wrapper, ms,
  begin_consensus,
}
use pqblockchain.Consensus.Round.{
  emplace, same_sets, remove_stale_proposals, remove_stale_sets, update_votes, create_disputes,
  update_agreeing,
}

-- The sets that the peers propose.
abbrev pub positions : Map CProposal → Map ℕ
positions [] = []
positions ((node, pos) ∷ proposals) = (node, pos.tx_set_id) ∷ positions proposals

-- The round once `closeBlock` has shared the proposal `p` of the set `txns`.
abbrev pub closed_round : ℕ → TransactionSet → TxSetProposal → Consensus → Consensus
closed_round now txns p s = record s {
  curr_block = record {
    block_header = record null_block.block_header {
      sequence = ((s.prev_block).sequence + 1) % 2 ^ 32;
    };
    block_body = null_body;
  };
  result = record s.result { txns = txns; tx_proposal = p; compares = []; disputes = [] };
  close_time = now;
  acquired_sets =
      emplace p.tx_set_id (record { set = txns; set_id = p.tx_set_id; time = p.time })
        s.acquired_sets;
}

-- The block of the round, as `onAccept` finishes it.
unfoldable pub finish_block : Consensus → Result Block
finish_block s = do
  let r : ConsensusResult = s.result
  let b : Block = record {
    block_header = record (s.curr_block).block_header {
      version = 1;
      previous_block_hash = s.prev_block_id;
      transactions_merkle_root_hash = (r.tx_proposal).tx_set_id;
    };
    block_body = record { transaction_count = length r.txns % 2 ^ 32; tx_set = r.txns };
  }
  size ← Block.get_size b
  ok (record b { block_header = record b.block_header { size = size % 2 ^ 32 } })

module _ (sha512 : Hash) (difference : TransactionSet → TransactionSet → TransactionSet) where
  -- Our proposal of a set of transactions.
  unfoldable pub propose : ℕ → ℕ → TransactionSet → TxSetProposal → TxSetProposal
  propose seconds previous txns p = record p {
    time = seconds;
    previous_block_id = previous;
    tx_set_id = compute_tx_set_merkle_root sha512 txns;
    tx_set_body = record { transaction_count = length txns % 2 ^ 32; tx_set = txns };
  }

  -- The last loop of `closeBlock`.
  unfoldable pub dispute_positions : Map CProposal → Consensus → Consensus
  dispute_positions [] s = s
  dispute_positions ((_, pos) ∷ proposals) s = elim (lookup pos.tx_set_id s.acquired_sets) [
    | none ↦ dispute_positions proposals s
    | some set ↦ dispute_positions proposals (create_disputes difference set s)
  ]

  module _ {W : Type 0} (wrapper : Wrapper W) where
    -- `Consensus::closeBlock`.
    unfoldable pub close_block : ℕ → ℕ → Consensus → W → Result (Consensus × W)
    unfolding propose dispute_positions
    close_block now seconds s w = do
      let r : ConsensusResult = s.result
      let txns : TransactionSet = wrapper.get_current_transaction_set r.txns w
      (p, w) ← wrapper.share_tx_set (propose seconds s.prev_block_id txns r.tx_proposal) w
      let closed : Consensus = closed_round now txns p s
      ok (dispute_positions closed.curr_peer_proposals closed, w)

    -- The end of `updateProposals`: the set has changed.
    unfoldable pub change_set : ℕ → TransactionSet → Consensus → W → Result (Consensus × W)
    change_set seconds txns s w = do
      let r : ConsensusResult = s.result
      let again : TxSetProposal = record r.tx_proposal { seq = ((r.tx_proposal).seq + 1) % 2 ^ 32 }
      (p, w) ← wrapper.share_tx_set (propose seconds s.prev_block_id txns again) w
      let set : CTxSet = record { set = txns; set_id = p.tx_set_id; time = p.time }
      let s : Consensus = record s { result = record r { txns = txns; tx_proposal = p } }
      elim (lookup p.tx_set_id s.acquired_sets) [
        | some _ ↦ ok (s, w)
        | none ↦ ok (
          update_agreeing difference s.curr_peer_proposals set
              (record s { acquired_sets = assign p.tx_set_id set s.acquired_sets }),
          w,
        )
      ]

    -- `Consensus::updateProposals`.
    unfoldable pub update_proposals : ℕ → Consensus → W → Result (Consensus × W)
    unfolding change_set propose
    update_proposals seconds s w = do
      let r : ConsensusResult = s.result
      let (proposals, disputes) = remove_stale_proposals seconds s.curr_peer_proposals r.disputes
      (disputes, txns) ← update_votes s.converge disputes r.txns
      let s : Consensus = record s {
        curr_peer_proposals = proposals;
        acquired_sets = remove_stale_sets seconds s.acquired_sets;
        result = record r { disputes = disputes };
      }
      if same_sets txns r.txns then ok (s, w) else change_set seconds txns s w

    -- `onAccept` from the proposal of the block on.
    unfoldable pub accept_block : ℕ → Block → ℕ → Consensus → W → Result (Consensus × W)
    accept_block now b id s w = do
      w ←
          wrapper.share_block
            (record OfBlock.null_proposal { block_id = id; proposed_block_header = b.block_header })
            w
      let r : ConsensusResult = s.result
      let s : Consensus = record s {
        curr_block = b;
        curr_block_id = id;
        prev_block = b;
        prev_block_id = id;
        prev_round_time = if ltb (ms 3000) r.round_time then r.round_time else ms 8000;
      }
      (w, is_valid) ← wrapper.add_block_header_to_chain b id w
      elim is_valid [
        | false ↦ ok (begin_consensus now s, w)
        | true ↦ do
          w ← wrapper.execute_block b w
          ok (begin_consensus now (record s { curr_block = null_block }), w)
      ]

    -- `Consensus::onAccept`.
    unfoldable pub on_accept : ℕ → Consensus → W → Result (Consensus × W)
    unfolding finish_block accept_block
    on_accept now s w = do
      b ← finish_block s
      id ← get_block_hash sha512 b.block_header
      accept_block now b id s w

    -- `timerEntry` in the phase of establishing.
    unfoldable pub establish_entry : ℕ → ℕ → Consensus → W → Result (Consensus × W)
    establish_entry now seconds s w = do
      let round_time : ℕ = now - s.close_time
      let slowest : ℕ = if ltb s.prev_round_time (ms 5000) then ms 5000 else s.prev_round_time
      let s : Consensus = record s {
        result = record s.result { round_time = round_time };
        converge = record { num = round_time; den = slowest };
      }
      (s, w) ← update_proposals seconds s w
      let id : ℕ = ((s.result).tx_proposal).tx_set_id
      elim (have_consensus (wrapper.get_unl_count w) id (positions s.curr_peer_proposals)) [
        | true ↦ on_accept now (record s { phase = accepted }) w
        | false ↦ ok (s, w)
      ]

    -- `timerEntry` behind the look at the preferred block.
    unfoldable pub by_phase : ℕ → ℕ → Consensus → W → Result (Consensus × W)
    unfolding establish_entry
    by_phase now seconds s w = elim s.phase [
      | accepted ↦ ok (s, w)
      | open_phase ↦
          if ltb s.prev_round_time (2 * (now - s.open_time))
          then close_block now seconds (record s { phase = establish }) w
          else ok (s, w)
      | establish ↦ establish_entry now seconds s w
    ]

    -- `timerEntry`, unless the round is accepted: a new preferred block starts a new round.
    unfoldable pub preferred_entry : ℕ → ℕ → Consensus → W → Result (Consensus × W)
    unfolding by_phase
    preferred_entry now seconds s w = do
      (id, header) ← wrapper.get_preferred w
      let on_preferred : Consensus = record s {
        prev_block = record { block_header = header; block_body = null_body };
        prev_block_id = id;
      }
      by_phase now seconds (if id == s.prev_block_id then s else begin_consensus now on_preferred) w

    -- `Consensus::timerEntry`.
    unfoldable pub timer_entry : ℕ → ℕ → Consensus → W → Result (Consensus × W)
    unfolding preferred_entry
    timer_entry now seconds s w = elim s.phase [
      | accepted ↦ ok (s, w)
      | _ ↦ preferred_entry now seconds s w
    ]

    -- `Consensus::peerProposal`.
    unfoldable pub peer_proposal : BlockProposal → Consensus → W → Result (Consensus × W)
    peer_proposal prop s w =
        elim ((prop.proposed_block_header).sequence == (s.curr_block).sequence) [
          | false ↦ ok (s, w)
          | true ↦ do
            (w, is_valid) ← wrapper.add_block_proposal_to_chain prop s.curr_block_id w
            elim is_valid [
              | false ↦ ok (s, w)
              | true ↦ do
                w ← wrapper.execute_block s.curr_block w
                ok (record s { curr_block = null_block }, w)
            ]
        ]
