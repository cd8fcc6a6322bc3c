-- ===== src/Proposal/Tests.antt =====
-- Proposals with concrete fields, and what the theorems say of them.
use pqblockchain.Prelude.{ℕ, ◌≡◌, ◌≤◌, refl, List, [], ◌∷◌, ◌++◌, length, arith}
use pqblockchain.Exceptions.{ok}
use pqblockchain.Serialize.{Cursor, advance}
use pqblockchain.Transaction.Tests.{five_to_seven, five_to_seven-IsEncodable}
use pqblockchain.Block.{null_body}
use pqblockchain.Proposal.OfBlock
use pqblockchain.Proposal.OfBlock.{BlockProposal}
use pqblockchain.Proposal.OfBlock.RoundTrip.{block_proposal-deserialize-serialize}
use pqblockchain.Proposal.OfTxSet
use pqblockchain.Proposal.OfTxSet.{TxSetProposal, prefix_size}
use pqblockchain.Proposal.OfTxSet.RoundTrip.{
  tx_set_proposal-deserialize-serialize, deserialize_except_tx_set_short,
}

-- A header whose hash of the balances is not there yet.
abbrev block_proposal : BlockProposal
block_proposal = record {
  type_of_proposal = 0;
  issuer = 21;
  block_id = 22;
  signature_size = 2;
  signature = 8 ∷ (9 ∷ []);
  proposed_block_header = record {
    version = 1;
    sequence = 2;
    size = 3;
    transactions_merkle_root_hash = 11;
    previous_block_hash = 12;
    account_balance_merkle_root_hash = 0;
  };
}

block_proposal-IsEncodable : OfBlock.RoundTrip.IsEncodable block_proposal
block_proposal-IsEncodable = record {
  type_fits = omega arith;
  issuer_fits = omega arith;
  id_fits = omega arith;
  size_fits = omega arith;
  size_set = λ e. omega arith;
  size_true = refl;
  header_fits = record {
    version_fits = omega arith;
    sequence_fits = omega arith;
    size_fits = omega arith;
    transactions_fits = omega arith;
    previous_fits = omega arith;
    accounts_fits = omega arith;
  };
}

abbrev tx_set_proposal : TxSetProposal
tx_set_proposal = record {
  type_of_proposal = 1;
  seq = 1;
  time = 1700000000;
  issuer = 21;
  tx_set_id = 23;
  previous_block_id = 24;
  signature_size = 2;
  signature = 8 ∷ (9 ∷ []);
  tx_set_body = record { transaction_count = 1; tx_set = five_to_seven ∷ [] };
}

tx_set_proposal-IsEncodable : OfTxSet.RoundTrip.IsEncodable tx_set_proposal
tx_set_proposal-IsEncodable = record {
  type_fits = omega arith;
  seq_fits = omega arith;
  time_fits = omega arith;
  issuer_fits = omega arith;
  id_fits = omega arith;
  previous_fits = omega arith;
  size_fits = omega arith;
  size_set = λ e. omega arith;
  size_true = refl;
  body = record {
    count_fits = omega arith;
    count_true = refl;
    ordered = (tt, tt);
    all_encodable = (five_to_seven-IsEncodable, tt);
  };
}

tx_set_proposal-deserialize-serialize_example :
    (bytes : List ℕ) × (OfTxSet.get_size tx_set_proposal ≡ ok (length bytes))
    × ((c : Cursor)
        → length bytes ≤ length c.room
        → OfTxSet.serialize tx_set_proposal c ≡ ok (advance bytes c))
    × ((rest : List ℕ) → OfTxSet.deserialize null_body (bytes ++ rest) ≡ ok (tx_set_proposal, rest))
tx_set_proposal-deserialize-serialize_example =
    tx_set_proposal-deserialize-serialize tx_set_proposal tx_set_proposal-IsEncodable
