-- ===== src/Consensus/Round.antt =====
-- src/Consensus/Consensus.cpp: a round of the consensus, as far as it does not use the wrapper. The call of
-- `std::set_symmetric_difference` is a parameter: it compares pointers, by which the sets are not ordered.
pub mod Timer
pub mod Votes
pub mod Sequence
pub mod Kept
pub mod Preserves
pub mod Accept
pub mod Phases
mod Tests
use pqblockchain.Consensus.State.{
  ConsensusPhase, open_phase, establish, accepted, CProposal, CTxSet, exists, ConsensusResult,
  reset, is_set, Consensus, ms, begin_consensus, new_consensus, Wrapper,
}
use pqblockchain.Prelude.{
  ℕ, ◌+◌, ◌-◌, ◌*◌, ◌%◌, ◌^◌, Bool, true, false, not, ◌&&◌, ◌||◌, Option, none, some, List, [], ◌∷◌,
  length, ltb, leb, ◌==◌, if◌then◌else◌,
}
use pqblockchain.Prelude.Map.{Map, lookup, assign}
use pqblockchain.Exceptions.{Result, ok, ◌>>=◌}
use pqblockchain.Crypto.{Hash}
use pqblockchain.Transaction.{Transaction}
use pqblockchain.Transaction.Set
use pqblockchain.Transaction.Set.{TransactionSet, find}
use pqblockchain.Block.{Block, BlockHeader, null_block, get_block_hash}
use pqblockchain.Block
use pqblockchain.Merkle.{compute_tx_set_merkle_root}
use pqblockchain.Proposal.OfBlock.{BlockProposal}
use pqblockchain.Proposal.OfBlock
use pqblockchain.Proposal.OfTxSet.{TxSetProposal}
use pqblockchain.Proposal.OfTxSet
use pqblockchain.Consensus.Dispute.{Dispute, Ratio, new_dispute, set_vote, un_vote, update_vote}
use pqblockchain.Consensus.Agreement.{have_consensus}

-- `acquiredSets_.emplace(id, set)`, and the same of a set of identifiers: what is there stays.
abbrev pub emplace {ℓ} : {V : Type ℓ} → ℕ → V → Map V → Map V
emplace k v m = elim (lookup k m) [ none ↦ assign k v m | some _ ↦ m ]

abbrev pub member : ℕ → List ℕ → Bool
member k [] = false
member k (j ∷ js) = if j == k then true else member k js

-- The votes of the peers whose sets are there, on a new dispute.
unfoldable pub vote_known : Map CProposal → Map CTxSet → Dispute → Dispute
vote_known [] acquired d = d
vote_known ((node, pos) ∷ proposals) acquired d = elim (lookup pos.tx_set_id acquired) [
  | none ↦ vote_known proposals acquired d
  | some set ↦ vote_known proposals acquired (set_vote node (exists d.tx set) d)
]

-- The loop of `createDisputes` over the transactions in which the sets differ.
unfoldable pub dispute_all :
    TransactionSet → Map CProposal → Map CTxSet → TransactionSet → Map Dispute → Map Dispute
unfolding vote_known
dispute_all txns proposals acquired [] disputes = disputes
dispute_all txns proposals acquired (tx ∷ diff) disputes = elim (lookup tx.id_hash disputes) [
  | some _ ↦ dispute_all txns proposals acquired diff disputes
  | none ↦
      let is_in_my : Bool = elim (find tx txns) [ none ↦ false | some _ ↦ true ] in
      dispute_all txns proposals acquired diff
        (assign tx.id_hash (vote_known proposals acquired (new_dispute tx is_in_my)) disputes)
]

-- The vote of a peer on all disputes.
unfoldable pub set_votes : ℕ → CTxSet → Map Dispute → Map Dispute
set_votes node set [] = []
set_votes node set ((id, d) ∷ disputes) =
    (id, set_vote node (exists d.tx set) d) ∷ set_votes node set disputes

-- The withdrawal of a peer's vote on all disputes.
unfoldable pub un_votes : ℕ → Map Dispute → Map Dispute
un_votes node [] = []
un_votes node ((id, d) ∷ disputes) = (id, un_vote node d) ∷ un_votes node disputes

-- Twenty seconds old, or older. A time with the highest bit set is negative,
-- and counts as stale also where the subtraction of the source would overflow.
abbrev pub is_stale : ℕ → ℕ → Bool
is_stale now time = leb (2 ^ 63) time || leb (time + 20) now

-- The first loop of `updateProposals`.
unfoldable pub remove_stale_proposals :
    ℕ → Map CProposal → Map Dispute → Map CProposal × Map Dispute
unfolding un_votes
remove_stale_proposals now [] disputes = ([], disputes)
remove_stale_proposals now ((node, pos) ∷ proposals) disputes = elim (is_stale now pos.time) [
  | true ↦ remove_stale_proposals now proposals (un_votes node disputes)
  | false ↦
      let rest = remove_stale_proposals now proposals disputes in ((node, pos) ∷ rest.0, rest.1)
]

-- The second loop of `updateProposals`.
unfoldable pub remove_stale_sets : ℕ → Map CTxSet → Map CTxSet
remove_stale_sets now [] = []
remove_stale_sets now ((id, set) ∷ acquired) =
    let rest = remove_stale_sets now acquired in
    if is_stale now set.time then rest else (id, set) ∷ rest

-- The loop of `updateProposals` over the disputes.
unfoldable pub update_votes :
    Ratio → Map Dispute → TransactionSet → Result (Map Dispute × TransactionSet)
update_votes converge [] set = ok ([], set)
update_votes converge ((id, d) ∷ disputes) set = do
  (d, changed) ← update_vote converge d
  let set : TransactionSet =
      if changed then (if d.our_vote then Set.insert d.tx set else Set.erase d.tx set) else set
  (disputes, set) ← update_votes converge disputes set
  ok ((id, d) ∷ disputes, set)

-- `currSetCopy != result_.txns`.
abbrev pub same_sets : TransactionSet → TransactionSet → Bool
same_sets [] [] = true
same_sets (a ∷ set) (b ∷ other) = (a.id_hash == b.id_hash) && same_sets set other
same_sets _ _ = false

-- Whether `gotTxSet` takes the proposal: it belongs to the round, and is not an old one of its peer.
unfoldable pub is_next : TxSetProposal → Consensus → Bool
is_next prop s =
    (prop.previous_block_id == s.prev_block_id) && elim (lookup prop.issuer s.curr_peer_proposals) [
      | none ↦ true
      | some pos ↦ not (leb prop.seq pos.seq)
    ]

-- `newPos` of `gotTxSet`.
abbrev pub position : TxSetProposal → CProposal
position prop = record {
  prev_block_id = prop.previous_block_id;
  tx_set_id = prop.tx_set_id;
  time = prop.time;
  seq = prop.seq;
}

-- The position of the peer is that of its proposal.
abbrev pub with_position : TxSetProposal → Consensus → Consensus
with_position prop s = record s {
  curr_peer_proposals = assign prop.issuer (position prop) s.curr_peer_proposals;
}

module _ (difference : TransactionSet → TransactionSet → TransactionSet) where
  -- `Consensus::createDisputes`.
  unfoldable pub create_disputes : CTxSet → Consensus → Consensus
  unfolding dispute_all
  create_disputes set s =
      let r : ConsensusResult = s.result in
      if member set.set_id r.compares
      then s
      else let compared : ConsensusResult = record r { compares = set.set_id ∷ r.compares } in
        if set.set_id == (r.tx_proposal).tx_set_id
        then record s { result = compared }
        else record s {
          result = record compared {
            disputes =
                dispute_all r.txns s.curr_peer_proposals s.acquired_sets (difference r.txns set.set)
                  r.disputes;
          };
        }

  -- `Consensus::updateDisputes`.
  unfoldable pub update_disputes : ℕ → CTxSet → Consensus → Consensus
  unfolding create_disputes set_votes
  update_disputes node set s =
      let s : Consensus =
        if member set.set_id (s.result).compares then s else create_disputes set s in
      record s { result = record s.result { disputes = set_votes node set (s.result).disputes } }

  -- `updateDisputes` for each peer whose position is the set.
  unfoldable pub update_agreeing : Map CProposal → CTxSet → Consensus → Consensus
  unfolding update_disputes
  update_agreeing [] set s = s
  update_agreeing ((node, pos) ∷ proposals) set s =
      if pos.tx_set_id == set.set_id
      then update_agreeing proposals set (update_disputes node set s)
      else update_agreeing proposals set s

  -- What `gotTxSet` does once the position of the peer is stored.
  unfoldable pub acquire : TxSetProposal → Consensus → Consensus
  unfolding update_agreeing is_set
  acquire prop s = elim (lookup prop.tx_set_id s.acquired_sets) [
    | some set ↦ record s {
      acquired_sets = assign prop.tx_set_id (record set { time = prop.time }) s.acquired_sets;
    }
    | none ↦
        let set : CTxSet = record {
          set = (prop.tx_set_body).tx_set;
          set_id = prop.tx_set_id;
          time = prop.time;
        } in
        let s : Consensus = record s {
          acquired_sets = assign prop.tx_set_id set s.acquired_sets;
        } in
        if is_set s.result then update_agreeing s.curr_peer_proposals set s else s
  ]

  -- `Consensus::gotTxSet`.
  unfoldable pub got_tx_set : TxSetProposal → Consensus → Consensus
  unfolding acquire is_next
  got_tx_set prop s = elim s.phase [
    | accepted ↦ s
    | _ ↦ if is_next prop s then acquire prop (with_position prop s) else s
  ]
