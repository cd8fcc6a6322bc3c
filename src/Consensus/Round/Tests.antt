-- ===== src/Consensus/Round/Tests.antt =====
-- Rounds with a concrete wrapper, and what the theorems say of them.
use pqblockchain.Prelude.{
  ℕ, ◌+◌, ◌*◌, ◌<◌, ◌≡◌, ◌≢◌, ◌⊎◌, refl, true, false, none, some, [], ◌∷◌, length, arith,
}
use pqblockchain.Prelude.Map.{lookup}
use pqblockchain.Exceptions.{Result, ok}
use pqblockchain.Crypto.{Hash}
use pqblockchain.Transaction.Set.{TransactionSet}
use pqblockchain.Transaction.Tests.{five_to_seven}
use pqblockchain.Transaction
use pqblockchain.Serialize.{fresh, serialize_number, put, le_bytes, serialize_blob, blob_bytes}
use pqblockchain.Block
use pqblockchain.Block.{Block, BlockHeader, null_header, get_block_hash}
use pqblockchain.Proposal.OfTxSet.{TxSetProposal, null_proposal}
use pqblockchain.Consensus.State.{
  Consensus, is_set, open_phase, accepted, CProposal, CTxSet, Wrapper, new_consensus,
  begin_consensus, reset, ms,
}
use pqblockchain.Consensus.Round.{is_next, position, got_tx_set}
use pqblockchain.Consensus.Round.Timer.{close_block, update_proposals, on_accept, timer_entry}
use pqblockchain.Consensus.Round.Sequence.{got_tx_set_positions}
use pqblockchain.Consensus.Round.Votes.Follow.{IsVoted, proposed_set, got_tx_set_votes}
use pqblockchain.Consensus.Round.Votes.Disputes.{IsValid, got_tx_set-IsValid}
use pqblockchain.Consensus.Round.Phases.{here, next, turn, tx_set_proposal, Reach-phases}
use pqblockchain.Consensus.Thread.{thread_turn}
use pqblockchain.Consensus.Round.Accept.{BuildsOn, on_accept_next_round}

abbrev length_hash : Hash
length_hash bytes = 3 * length bytes + 1

-- The elements of the first set, where the library would give those of one set only.
abbrev first_set : TransactionSet → TransactionSet → TransactionSet
first_set a b = a

-- A node with one transaction in its pool, whose blocks never become valid.
abbrev lone : Wrapper (Unit {0})
lone = record {
  get_preferred = λ w. ok (5, null_header);
  get_current_transaction_set = λ set w. five_to_seven ∷ set;
  get_unl_count = λ w. 1;
  share_tx_set = λ p w. ok (p, w);
  share_block = λ p w. ok w;
  add_block_proposal_to_chain = λ p id w. ok (w, false);
  add_block_header_to_chain = λ b id w. ok (w, false);
  execute_block = λ b w. ok w;
}

-- A peer that proposes an empty set.
abbrev empty_proposal : TxSetProposal
empty_proposal = record null_proposal {
  issuer = 21;
  seq = 1;
  time = 1000;
  previous_block_id = 5;
  tx_set_id = 33;
}

abbrev started : Consensus
started = new_consensus 5 0

returned : Result (Consensus × Unit {0}) → Consensus
returned (ok r) = r.0
returned _ = started

-- Eight seconds later: the block is closed.
abbrev closed : Consensus
closed = returned (timer_entry length_hash first_set lone (ms 8000) 1005 started tt)

closing : timer_entry length_hash first_set lone (ms 8000) 1005 started tt ≡ ok (closed, tt)
unfolding timer_entry close_block returned new_consensus begin_consensus
closing = refl

abbrev with_peer : Consensus
with_peer = got_tx_set first_set empty_proposal closed

-- A turn of the thread a second after the last one.
turning :
    thread_turn length_hash first_set lone
      ((11, five_to_seven) ∷ [])
      (ms 8000)
      1005
      (ms 7000)
      started
      tt
    ≡ ok (closed, tt)
unfolding timer_entry close_block returned new_consensus begin_consensus thread_turn
turning = refl

Reach-phases_example :
    (with_peer.phase ≢ accepted) × (with_peer.phase ≡ open_phase → with_peer.result ≡ reset)
Reach-phases_example = Reach-phases length_hash first_set lone 5 0 (
    next (next here (turn tt tt ((11, five_to_seven) ∷ []) (ms 8000) 1005 (ms 7000) turning))
      (tx_set_proposal empty_proposal))

got_tx_set-IsValid_example : IsValid with_peer
unfolding timer_entry close_block returned new_consensus begin_consensus
got_tx_set-IsValid_example = got_tx_set-IsValid first_set empty_proposal closed (omega arith) tt

got_tx_set_positions_example :
    (lookup 21 with_peer.curr_peer_proposals ≡ lookup 21 closed.curr_peer_proposals)
    ⊎ ((empty_proposal.issuer ≡ 21)
        × (lookup 21 with_peer.curr_peer_proposals ≡ some (position empty_proposal))
        × (empty_proposal.previous_block_id ≡ closed.prev_block_id)
        × ((old : CProposal)
            → lookup 21 closed.curr_peer_proposals ≡ some old
            → old.seq < empty_proposal.seq))
got_tx_set_positions_example = got_tx_set_positions first_set empty_proposal closed 21

got_tx_set_votes_example :
    (lookup 33 closed.acquired_sets ≡ none
      → is_set closed.result ≡ true
      → IsVoted 21 (proposed_set empty_proposal) (with_peer.result).disputes)
    × ((known : CTxSet)
        → lookup 33 closed.acquired_sets ≡ some known
        → (with_peer.result).disputes ≡ (closed.result).disputes)
unfolding timer_entry close_block returned new_consensus begin_consensus is_next
got_tx_set_votes_example = got_tx_set_votes first_set empty_proposal closed refl (λ e. cc)

-- Twenty-five seconds after the proposal of the peer.
abbrev updated : Consensus
updated = returned (update_proposals length_hash first_set lone 1025 with_peer tt)

on_accept_next_round_example :
    let r = returned (on_accept length_hash first_set lone (ms 9000) closed tt) in
    (b : Block) × (id : ℕ) × BuildsOn length_hash first_set lone b id r
    × (get_block_hash length_hash b.block_header ≡ ok id)
    × (b.previous_block_hash ≡ closed.prev_block_id)
    × (b.sequence ≡ (closed.curr_block).sequence)
    × (b.tx_set ≡ (closed.result).txns)
unfolding timer_entry close_block returned new_consensus begin_consensus on_accept Block.get_size
    Transaction.get_size get_block_hash fresh serialize_number put le_bytes serialize_blob
    blob_bytes
on_accept_next_round_example =
    on_accept_next_round length_hash first_set lone (ms 9000) closed tt
      (returned (on_accept length_hash first_set lone (ms 9000) closed tt), tt) refl
